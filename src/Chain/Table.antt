-- ===== src/Chain/Table.antt =====
-- `eosio::multi_index`: rows by scope and primary key, each with the account that pays for it.
-- A table is what the chain's database holds of it; the newest row stands first.
use amax_contracts.Common.{
  ℕ, ◌≡◌, refl, Bool, true, false, ◌&&◌, ◌==◌, if◌then◌else◌, Option, none, some, List, [], ◌∷◌,
  arith, Result, ok, err,
}
use amax_contracts.Common.Int.{ℤ, pos, ◌+ℤ◌, int_laws}

pub record Entry (R : Type 0) : Type 0 where
  pub scope : ℕ
  pub key : ℕ
  pub payer : ℕ
  pub row : R

abbrev pub Table : Type 0 → Type 0
Table R = List (Entry R)

module _ {R : Type 0} where
  abbrev pub is_at : ℕ → ℕ → Entry R → Bool
  is_at s k e = s == e.scope && k == e.key

  abbrev pub find : ℕ → ℕ → Table R → Option R
  find s k [] = none
  find s k (e ∷ t) = if is_at s k e then some e.row else find s k t

  abbrev pub contains : ℕ → ℕ → Table R → Bool
  contains s k t = elim (find s k t) [ none ↦ false | some _ ↦ true ]

  -- Adding a row whose key is taken aborts.
  abbrev pub emplace : ℕ → ℕ → ℕ → R → Table R → Result (Table R)
  emplace s k p r t = elim (find s k t) [
    | none ↦ ok (record { scope = s; key = k; payer = p; row = r } ∷ t)
    | some _ ↦ err "could not insert object, most likely a uniqueness constraint was violated"
  ]

  -- `modify` with a payer, and with `same_payer`.
  abbrev pub modify : ℕ → ℕ → ℕ → R → Table R → Table R
  modify s k p r [] = []
  modify s k p r (e ∷ t) =
      if is_at s k e then record e { payer = p; row = r } ∷ t else e ∷ modify s k p r t

  abbrev pub modify_same : ℕ → ℕ → R → Table R → Table R
  modify_same s k r [] = []
  modify_same s k r (e ∷ t) =
      if is_at s k e then record e { row = r } ∷ t else e ∷ modify_same s k r t

  abbrev pub erase : ℕ → ℕ → Table R → Table R
  erase s k [] = []
  erase s k (e ∷ t) = if is_at s k e then t else e ∷ erase s k t

  -- No two rows share a scope and a key, and each satisfies `P scope key row`.
  abbrev pub Rows : (ℕ → ℕ → R → Type 0) → Table R → Type 0
  Rows P [] = Unit
  Rows P (e ∷ t) = P e.scope e.key e.row × (find e.scope e.key t ≡ none) × Rows P t

  -- The sum of an integer that each row has.
  abbrev pub total : (ℕ → ℕ → R → ℤ) → Table R → ℤ
  total f [] = pos 0
  total f (e ∷ t) = f e.scope e.key e.row +ℤ total f t

module _ {R : Type 0} where
  pub find-modify :
      (s k p a b : ℕ) (r old : R) (t : Table R)
      → find s k t ≡ some old
      → find a b (modify s k p r t) ≡ (if a == s && b == k then some r else find a b t)
  find-modify s k p a b r old [] e = cc
  find-modify s k p a b r old (x ∷ t) e = ground (arith, find-modify s k p a b r old t)

  pub find-modify_same :
      (s k a b : ℕ) (r old : R) (t : Table R)
      → find s k t ≡ some old
      → find a b (modify_same s k r t) ≡ (if a == s && b == k then some r else find a b t)
  find-modify_same s k a b r old [] e = cc
  find-modify_same s k a b r old (x ∷ t) e = ground (arith, find-modify_same s k a b r old t)

  pub find-erase_ne :
      (s k a b : ℕ) (t : Table R) → (a == s && b == k) ≡ false → find a b (erase s k t) ≡ find a b t
  find-erase_ne s k a b [] h = refl
  find-erase_ne s k a b (x ∷ t) h = ground (arith, find-erase_ne s k a b t h)

module _ {R : Type 0} (P : ℕ → ℕ → R → Type 0) where
  pub Rows-find : (s k : ℕ) (r : R) (t : Table R) → Rows P t → find s k t ≡ some r → P s k r
  Rows-find s k r [] h e = cc
  Rows-find s k r (x ∷ t) h e = ground (arith, Rows-find s k r t h.2)

  pub find-erase_self : (s k : ℕ) (t : Table R) → Rows P t → find s k (erase s k t) ≡ none
  find-erase_self s k [] h = refl
  find-erase_self s k (x ∷ t) h = ground (arith, find-erase_self s k t h.2)

  none-modify :
      (s k p a b : ℕ) (r : R) (t : Table R) → find a b t ≡ none → find a b (modify s k p r t) ≡ none
  none-modify s k p a b r [] h = refl
  none-modify s k p a b r (x ∷ t) h = ground (arith, none-modify s k p a b r t)

  none-modify_same :
      (s k a b : ℕ) (r : R) (t : Table R)
      → find a b t ≡ none
      → find a b (modify_same s k r t) ≡ none
  none-modify_same s k a b r [] h = refl
  none-modify_same s k a b r (x ∷ t) h = ground (arith, none-modify_same s k a b r t)

  none-erase : (s k a b : ℕ) (t : Table R) → find a b t ≡ none → find a b (erase s k t) ≡ none
  none-erase s k a b [] h = refl
  none-erase s k a b (x ∷ t) h = ground (arith, none-erase s k a b t)

  pub modify-Rows :
      (s k p : ℕ) (r : R) (t : Table R) → Rows P t → P s k r → Rows P (modify s k p r t)
  modify-Rows s k p r [] h q = tt
  modify-Rows s k p r (x ∷ t) h q =
      ground (arith, modify-Rows s k p r t h.2 q, none-modify s k p x.scope x.key r t)

  pub modify_same-Rows :
      (s k : ℕ) (r : R) (t : Table R) → Rows P t → P s k r → Rows P (modify_same s k r t)
  modify_same-Rows s k r [] h q = tt
  modify_same-Rows s k r (x ∷ t) h q =
      ground (arith, modify_same-Rows s k r t h.2 q, none-modify_same s k x.scope x.key r t)

  pub erase-Rows : (s k : ℕ) (t : Table R) → Rows P t → Rows P (erase s k t)
  erase-Rows s k [] h = tt
  erase-Rows s k (x ∷ t) h = ground (arith, erase-Rows s k t h.2, none-erase s k x.scope x.key t)

  pub emplace-Rows :
      (s k p : ℕ) (r : R) (t u : Table R) → Rows P t → P s k r → emplace s k p r t ≡ ok u → Rows P u
  emplace-Rows s k p r t u h q e = ground arith

module _ {R : Type 0} (f : ℕ → ℕ → R → ℤ) where
  pub total-modify :
      (s k p : ℕ) (r old : R) (t : Table R)
      → find s k t ≡ some old
      → total f (modify s k p r t) +ℤ f s k old ≡ total f t +ℤ f s k r
  total-modify s k p r old [] e = cc
  total-modify s k p r old (x ∷ t) e = grind (int_laws, total-modify s k p r old t)

  pub total-modify_same :
      (s k : ℕ) (r old : R) (t : Table R)
      → find s k t ≡ some old
      → total f (modify_same s k r t) +ℤ f s k old ≡ total f t +ℤ f s k r
  total-modify_same s k r old [] e = cc
  total-modify_same s k r old (x ∷ t) e = grind (int_laws, total-modify_same s k r old t)

  pub total-erase :
      (s k : ℕ) (old : R) (t : Table R)
      → find s k t ≡ some old
      → total f (erase s k t) +ℤ f s k old ≡ total f t
  total-erase s k old [] e = cc
  total-erase s k old (x ∷ t) e = grind (int_laws, total-erase s k old t)

  pub total-emplace :
      (s k p : ℕ) (r : R) (t u : Table R)
      → emplace s k p r t ≡ ok u
      → total f u ≡ f s k r +ℤ total f t
  total-emplace s k p r t u e = ground arith
