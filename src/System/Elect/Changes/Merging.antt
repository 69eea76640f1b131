-- ===== src/System/Elect/Changes/Merging.antt =====
-- Merged changes of the schedule do what the changes do one after the other.
use amax_contracts.Common.{
  ◌≡◌, refl, sym, ap, ◌∙◌, true, false, ◌==◌, if◌then◌else◌, Option, none, some, List, [], ◌∷◌,
  arith, ok, Bool-cases, inl, inr,
}
use amax_contracts.Chain.{Name}
use amax_contracts.System.Elect.Changes.{
  Change, adds, modifies, deletes, Entry, ChangeMap, lookup, assign, erase, add, modify, del, visit,
  visit_all, merge_map,
}

same_key : (n : Name) → (n == n) ≡ true
same_key n = ground arith

module _ {A : Type 0} where
  -- A schedule has the authorities of its producers. What a change makes of a producer's:
  abbrev pub changed : Option A → Option (Change A) → Option A
  changed o none = o
  changed o (some (adds a)) = some a
  changed o (some (modifies a)) = some a
  changed o (some deletes) = none

  -- Only who is not there is added, and only who is there is modified or deleted.
  abbrev pub Fit : Option A → Option (Change A) → Type 0
  Fit o none = Unit
  Fit none (some (adds a)) = Unit
  Fit (some b) (some (adds a)) = ⊥
  Fit none (some (modifies a)) = ⊥
  Fit (some b) (some (modifies a)) = Unit
  Fit none (some deletes) = ⊥
  Fit (some b) (some deletes) = Unit

  abbrev pub scheduled : (Name → Option A) → List (Entry A) → Name → Option A
  scheduled s l n = changed (s n) (lookup n l)

  abbrev pub Fits : (Name → Option A) → List (Entry A) → Type 0
  Fits s l = (n : Name) → Fit (s n) (lookup n l)

  -- No key stands twice, as in a map.
  abbrev pub IsMap : List (Entry A) → Type 0
  IsMap [] = Unit
  IsMap (e ∷ l) = (lookup e.name l ≡ none) × IsMap l

  lookup-assign :
      (m n : Name) (c : Change A) (l : List (Entry A))
      → lookup m (assign n c l) ≡ (if m == n then some c else lookup m l)
  lookup-assign m n c [] = refl
  lookup-assign m n c (e ∷ l) = ground (arith, lookup-assign m n c l)

  lookup-erase :
      (m n : Name) (l : List (Entry A))
      → lookup m (erase n l) ≡ (if m == n then none else lookup m l)
  lookup-erase m n [] = ground arith
  lookup-erase m n (e ∷ l) = ground (arith, lookup-erase m n l)

  -- A step of a merge: the changes `r` are `l` with a change `c` of `n` more.
  abbrev Stepped : (Name → Option A) → List (Entry A) → Name → Change A → List (Entry A) → Type 0
  Stepped s l n c r =
      (visit l n c ≡ ok r)
      × ((m : Name)
          → (scheduled s r m
              ≡ (if m == n then changed (scheduled s l m) (some c) else scheduled s l m))
            × Fit (s m) (lookup m r))

  -- Where `lookup` has one more value `w`.
  stepped :
      (s : Name → Option A) (l r : List (Entry A)) (n : Name) (c : Change A) (w : Option (Change A))
      → visit l n c ≡ ok r
      → ((m : Name) → lookup m r ≡ (if m == n then w else lookup m l))
      → changed (s n) w ≡ changed (scheduled s l n) (some c)
      → Fit (s n) w
      → Fits s l
      → Stepped s l n c r
  stepped s l r n c w e look same fit fits = (
    e,
    λ m. elim (Bool-cases (m == n)) [
      | inl q ↦ let mn : m ≡ n = ground arith in rw (look m) (rw q (rw mn (same, fit)))
      | inr q ↦ rw (look m) (rw q (refl, fits m))
    ],
  )

  -- The value that the key of a step has then.
  abbrev combined : Option (Change A) → Change A → Option (Change A)
  combined none c = some c
  combined (some (adds b)) (adds a) = none
  combined (some (adds b)) (modifies a) = some (adds a)
  combined (some (adds b)) deletes = none
  combined (some (modifies b)) c = some c
  combined (some deletes) (adds a) = some (modifies a)
  combined (some deletes) (modifies a) = some deletes
  combined (some deletes) deletes = some deletes

  combined-changed :
      (t : Option A) (o : Option (Change A)) (c : Change A)
      → Fit t o
      → Fit (changed t o) (some c)
      → (changed t (combined o c) ≡ changed (changed t o) (some c)) × Fit t (combined o c)
  combined-changed t o c f g = ground arith

  abbrev result : Name → List (Entry A) → Option (Change A) → Change A → List (Entry A)
  result n l o c = elim (combined o c) [ none ↦ erase n l | some d ↦ assign n d l ]

  lookup-result :
      (m n : Name) (l : List (Entry A)) (o : Option (Change A)) (c : Change A)
      → lookup m (result n l o c) ≡ (if m == n then combined o c else lookup m l)
  lookup-result m n l o c =
      elim (combined o c)
        as (λ w.
          lookup m (elim w [ none ↦ erase n l | some d ↦ assign n d l ])
          ≡ (if m == n then w else lookup m l)) [
            | none ↦ lookup-erase m n l
            | some d ↦ lookup-assign m n d l
          ]

  visit-result :
      (t : Option A) (l : List (Entry A)) (n : Name) (c : Change A) (o : Option (Change A))
      → lookup n l ≡ o
      → Fit t o
      → Fit (changed t o) (some c)
      → visit l n c ≡ ok (result n l o c)
  unfolding visit add modify del
  visit-result t l n c o e f g = ground arith

  visit_lem :
      (s : Name → Option A) (l : List (Entry A)) (n : Name) (c : Change A)
      → Fits s l
      → Fit (scheduled s l n) (some c)
      → (r : List (Entry A)) × Stepped s l n c r
  visit_lem s l n c fits fit =
      let (same, fit') = combined-changed (s n) (lookup n l) c (fits n) fit in
      (
        result n l (lookup n l) c,
        stepped s l (result n l (lookup n l) c) n c (combined (lookup n l) c)
            (visit-result (s n) l n c (lookup n l) refl (fits n) fit)
            (λ m. lookup-result m n l (lookup n l) c) same fit' fits,
      )

  -- After a step, the changes that are left still fit.
  left-Fits :
      (s : Name → Option A) (l r : List (Entry A)) (e : Entry A) (src : List (Entry A))
      → ((m : Name)
          → scheduled s r m
            ≡ (if m == e.name then changed (scheduled s l m) (some e.change) else scheduled s l m))
      → lookup e.name src ≡ none
      → Fits (scheduled s l) (e ∷ src)
      → Fits (scheduled s r) src
  left-Fits s l r e src step fresh fits m = elim (Bool-cases (m == e.name)) [
    | inl q ↦ let mn : m ≡ e.name = ground arith in rw mn (rw fresh tt)
    | inr q ↦
        let at_m : scheduled s r m ≡ scheduled s l m = step m ∙ rw q refl in
        let kept : lookup m (e ∷ src) ≡ lookup m src = rw q refl in rw at_m (rw (sym kept) (fits m))
  ]

  -- One key, after the step of an entry and all that follow it.
  key_changed :
      (s : Name → Option A) (l r : List (Entry A)) (e : Entry A) (src : List (Entry A)) (m : Name)
      → ((m : Name)
          → scheduled s r m
            ≡ (if m == e.name then changed (scheduled s l m) (some e.change) else scheduled s l m))
      → lookup e.name src ≡ none
      → changed (scheduled s r m) (lookup m src) ≡ changed (scheduled s l m) (lookup m (e ∷ src))
  key_changed s l r e src m step fresh = elim (Bool-cases (m == e.name)) [
    | inl q ↦
        let mn : m ≡ e.name = ground arith in
        let at_m : scheduled s r m ≡ changed (scheduled s l m) (some e.change) =
          step m ∙ rw q refl in
        let gone : lookup m src ≡ none = rw mn fresh in rw gone (rw q at_m)
    | inr q ↦
        let at_m : scheduled s r m ≡ scheduled s l m = step m ∙ rw q refl in
        rw q (ap (λ (o : Option A). changed o (lookup m src)) at_m)
  ]

  visit_all_lem :
      (s : Name → Option A) (l src : List (Entry A))
      → Fits s l
      → IsMap src
      → Fits (scheduled s l) src
      → (r : List (Entry A)) × (visit_all l src ≡ ok r)
        × ((m : Name) → scheduled s r m ≡ scheduled (scheduled s l) src m)
        × Fits s r
  unfolding visit_all
  visit_all_lem s l [] f u g = (l, refl, λ m. refl, f)
  visit_all_lem s l (e ∷ src) f u g =
      let found : lookup e.name (e ∷ src) ≡ some e.change = rw (same_key e.name) refl in
      let here : Fit (scheduled s l e.name) (some e.change) = rw (sym found) (g e.name) in
      let (next, stepped_next) = visit_lem s l e.name e.change f here in
      let (step, at) = stepped_next in
      let (fresh, rest) = u in
      let (r, all, each, fits) =
        visit_all_lem s next src (λ m. (at m).1) rest
          (left-Fits s l next e src (λ m. (at m).0) fresh g) in
      (r, rw step all, λ m. each m ∙ key_changed s l next e src m (λ k. (at k).0) fresh, fits)

  -- The schedule that a change map starts from, and the one it proposes.
  abbrev pub base : (Name → Option A) → ChangeMap A → Name → Option A
  base s c n = if c.clear_existed then none else s n

  abbrev pub proposed : (Name → Option A) → ChangeMap A → Name → Option A
  proposed s c = scheduled (base s c) c.changes

  base_cleared :
      (s : Name → Option A) (c : ChangeMap A) (n : Name)
      → c.clear_existed ≡ true
      → base s c n ≡ none
  base_cleared s c n q = rw q refl

  base_kept :
      (s : Name → Option A) (c : ChangeMap A) (n : Name)
      → c.clear_existed ≡ false
      → base s c n ≡ s n
  base_kept s c n q = rw q refl

  Fit-eq : (t u : Option A) (o : Option (Change A)) → t ≡ u → Fit u o → Fit t o
  Fit-eq t u o e f = rw e f

  -- If the changes of the destination fit a schedule, and those of the source, whose keys are
  -- distinct, fit what the destination proposes, then a merge does not abort, and the merged changes
  -- fit the schedule and propose for every producer what the source proposes after the destination,
  -- with the source's count of producers.
  pub merge_map-proposed :
      (s : Name → Option A) (src dest : ChangeMap A)
      → Fits (base s dest) dest.changes
      → IsMap src.changes
      → Fits (base (proposed s dest) src) src.changes
      → (r : ChangeMap A) × (merge_map src dest ≡ ok r)
        × ((n : Name) → proposed s r n ≡ proposed (proposed s dest) src n)
        × Fits (base s r) r.changes
        × (r.producer_count ≡ src.producer_count)
  unfolding merge_map
  merge_map-proposed s src dest f u g = elim (Bool-cases src.clear_existed) [
    | inl q ↦ (
      src,
      rw q refl,
      λ n.
          ap (λ (o : Option A). changed o (lookup n src.changes))
            (base_cleared s src n q ∙ sym (base_cleared (proposed s dest) src n q)),
      λ n.
          Fit-eq (base s src n) (base (proposed s dest) src n) (lookup n src.changes)
            (base_cleared s src n q ∙ sym (base_cleared (proposed s dest) src n q)) (g n),
      refl,
    )
    | inr q ↦
        let (changes, all, each, fits) =
          visit_all_lem (base s dest) dest.changes src.changes f u (λ n.
            Fit-eq (proposed s dest n) (base (proposed s dest) src n) (lookup n src.changes)
              (sym (base_kept (proposed s dest) src n q)) (g n)) in
        (
          record dest { changes = changes; producer_count = src.producer_count },
          rw q (rw all refl),
          λ n.
              each n
              ∙ ap (λ (o : Option A). changed o (lookup n src.changes))
                  (sym (base_kept (proposed s dest) src n q)),
          fits,
          refl,
        )
  ]
