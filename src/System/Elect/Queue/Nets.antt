-- ===== src/System/Elect/Queue/Nets.antt =====
-- How many producers the changes of a schedule add to it.
use amax_contracts.Common.{
  ◌<◌, ◌≡◌, refl, ◌==◌, ltb, Option, none, some, List, [], ◌∷◌, arith, ok, Bool-cases, inl, inr,
}
use amax_contracts.Common.Int.{ℤ, pos, negsuc, ◌+ℤ◌, int_laws}
use amax_contracts.Chain.{Name}
use amax_contracts.System.Elect.Changes.{
  Change, adds, modifies, deletes, Entry, lookup, assign, erase, add, modify, del,
}

swapped : (x y z : ℤ) → x +ℤ y +ℤ z ≡ z +ℤ y +ℤ x
swapped x y z = omega int_laws

put_first : (x y : ℤ) → x +ℤ y +ℤ pos 0 ≡ y +ℤ x
put_first x y = omega int_laws

deeper : (e a w l c : ℤ) → a +ℤ w ≡ l +ℤ c → e +ℤ a +ℤ w ≡ e +ℤ l +ℤ c
deeper e a w l c h = grind int_laws

module _ {A : Type 0} where
  -- How many producers a change adds to a schedule, and how many all changes of a list do.
  abbrev pub weight : Change A → ℤ
  weight (adds a) = pos 1
  weight (modifies a) = pos 0
  weight deletes = negsuc 0

  abbrev pub weight_at : Option (Change A) → ℤ
  weight_at none = pos 0
  weight_at (some c) = weight c

  abbrev pub net : List (Entry A) → ℤ
  net [] = pos 0
  net (e ∷ l) = weight e.change +ℤ net l

  -- Rising keys.
  abbrev pub Above : Name → List (Entry A) → Type 0
  Above n [] = Unit
  Above n (e ∷ l) = (n < e.name) × Above n l

  abbrev pub IsSorted : List (Entry A) → Type 0
  IsSorted [] = Unit
  IsSorted (e ∷ l) = Above e.name l × IsSorted l

  Above-lookup : (n : Name) (l : List (Entry A)) → Above n l → lookup n l ≡ none
  Above-lookup n [] h = refl
  Above-lookup n (e ∷ l) h = ground (arith, Above-lookup n l)

  Above-trans : (m n : Name) (l : List (Entry A)) → m < n → Above n l → Above m l
  Above-trans m n [] k h = tt
  Above-trans m n (e ∷ l) k h = ground (arith, Above-trans m n l)

  Above-assign :
      (m n : Name) (c : Change A) (l : List (Entry A)) → m < n → Above m l → Above m (assign n c l)
  Above-assign m n c [] k h = ground arith
  Above-assign m n c (e ∷ l) k h = ground (arith, Above-assign m n c l)

  Above-erase : (m n : Name) (l : List (Entry A)) → Above m l → Above m (erase n l)
  Above-erase m n [] h = tt
  Above-erase m n (e ∷ l) h = ground (arith, Above-erase m n l)

  IsSorted-assign :
      (n : Name) (c : Change A) (l : List (Entry A)) → IsSorted l → IsSorted (assign n c l)
  IsSorted-assign n c [] h = (tt, tt)
  IsSorted-assign n c (e ∷ l) h =
      ground (arith, IsSorted-assign n c l, Above-assign e.name n c l, Above-trans n e.name l)

  IsSorted-erase : (n : Name) (l : List (Entry A)) → IsSorted l → IsSorted (erase n l)
  IsSorted-erase n [] h = tt
  IsSorted-erase n (e ∷ l) h = ground (arith, IsSorted-erase n l, Above-erase e.name n l)

  erase-Above : (n : Name) (l : List (Entry A)) → Above n l → erase n l ≡ l
  erase-Above n [] h = refl
  erase-Above n (e ∷ l) h = ground (arith, erase-Above n l)

  net-assign :
      (n : Name) (c : Change A) (l : List (Entry A))
      → IsSorted l
      → net (assign n c l) +ℤ weight_at (lookup n l) ≡ net l +ℤ weight c
  net-assign n c [] h = omega int_laws
  net-assign n c (e ∷ l) h =
      let (above, sorted) = h in
      let rest = net-assign n c l sorted in
      elim (Bool-cases (n == e.name)) [
        | inl q ↦ rw q (swapped (weight c) (net l) (weight e.change))
        | inr q ↦ elim (Bool-cases (ltb n e.name)) [
          | inl r ↦
              let below : n < e.name = ground arith in
              let none_there = Above-lookup n l (Above-trans n e.name l below above) in
              rw q (rw r (rw none_there (put_first (weight c) (weight e.change +ℤ net l))))
          | inr r ↦ rw q (
              rw r (
                deeper (weight e.change) (net (assign n c l)) (weight_at (lookup n l)) (net l)
                  (weight c) rest))
        ]
      ]

  net-erase :
      (n : Name) (l : List (Entry A))
      → IsSorted l
      → net (erase n l) +ℤ weight_at (lookup n l) ≡ net l
  net-erase n [] h = omega int_laws
  net-erase n (e ∷ l) h = grind (int_laws, net-erase n l, Above-lookup n l, erase-Above n l)

  -- The changes `r` are sorted, and add `d` producers more than `l` does.
  abbrev pub Counts : ℤ → List (Entry A) → List (Entry A) → Type 0
  Counts d l r = IsSorted r × (net r ≡ net l +ℤ d)

  pub add-Counts :
      (l r : List (Entry A)) (n : Name) (a : A) → IsSorted l → add l n a ≡ ok r → Counts (pos 1) l r
  unfolding add
  add-Counts l r n a s h = grind (
    int_laws,
    net-assign n (adds a) l,
    net-assign n (modifies a) l,
    IsSorted-assign n (adds a) l,
    IsSorted-assign n (modifies a) l,
  )

  pub modify-Counts :
      (l r : List (Entry A)) (n : Name) (a : A)
      → IsSorted l
      → modify l n a ≡ ok r
      → Counts (pos 0) l r
  unfolding modify
  modify-Counts l r n a s h = grind (
    int_laws,
    net-assign n (adds a) l,
    net-assign n (modifies a) l,
    IsSorted-assign n (adds a) l,
    IsSorted-assign n (modifies a) l,
  )

  pub del-Counts :
      (l r : List (Entry A)) (n : Name) → IsSorted l → del l n ≡ ok r → Counts (negsuc 0) l r
  unfolding del
  del-Counts l r n s h = grind (
    int_laws,
    net-assign n deletes l,
    net-erase n l,
    IsSorted-assign n deletes l,
    IsSorted-erase n l,
  )
