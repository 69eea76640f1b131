-- ===== src/Reward/Rows.antt =====
-- What the two forms of `db::set` do to a table.
use amax_contracts.Common.{
  ℕ, ◌≡◌, ◌&&◌, ◌==◌, if◌then◌else◌, some, arith, ok, Option-cases, inl, inr,
}
use amax_contracts.Common.Int.{ℤ, pos, ◌+ℤ◌, int_laws}
use amax_contracts.Chain.Table.{
  Table, find, emplace, modify, modify_same, Rows, total, find-modify, find-modify_same,
  modify-Rows, modify_same-Rows, emplace-Rows, total-modify, total-modify_same, total-emplace,
}
use amax_contracts.Reward.{set_row, set_row_paid, row_or}

module _ {R : Type 0} where
  find-emplace :
      (s k p a b : ℕ) (r : R) (t u : Table R)
      → emplace s k p r t ≡ ok u
      → find a b u ≡ (if a == s && b == k then some r else find a b t)
  find-emplace s k p a b r t u e = ground arith

  pub find-set_row :
      (s k p a b : ℕ) (r : R) (t u : Table R)
      → set_row (find s k t) s k p r t ≡ ok u
      → find a b u ≡ (if a == s && b == k then some r else find a b t)
  find-set_row s k p a b r t u e = elim (Option-cases (find s k t)) [
    | inl f ↦ find-emplace s k p a b r t u (ground arith)
    | inr (old, f) ↦ ground (arith, find-modify_same s k a b r old t)
  ]

  pub find-set_row_paid :
      (s k p a b : ℕ) (r : R) (t u : Table R)
      → set_row_paid (find s k t) s k p r t ≡ ok u
      → find a b u ≡ (if a == s && b == k then some r else find a b t)
  find-set_row_paid s k p a b r t u e = elim (Option-cases (find s k t)) [
    | inl f ↦ find-emplace s k p a b r t u (ground arith)
    | inr (old, f) ↦ ground (arith, find-modify s k p a b r old t)
  ]

module _ {R : Type 0} (P : ℕ → ℕ → R → Type 0) where
  pub set_row-Rows :
      (s k p : ℕ) (r : R) (t u : Table R)
      → Rows P t
      → P s k r
      → set_row (find s k t) s k p r t ≡ ok u
      → Rows P u
  set_row-Rows s k p r t u v q e = elim (Option-cases (find s k t)) [
    | inl f ↦ emplace-Rows P s k p r t u v q (ground arith)
    | inr (old, f) ↦ ground (arith, modify_same-Rows P s k r t v q)
  ]

  pub set_row_paid-Rows :
      (s k p : ℕ) (r : R) (t u : Table R)
      → Rows P t
      → P s k r
      → set_row_paid (find s k t) s k p r t ≡ ok u
      → Rows P u
  set_row_paid-Rows s k p r t u v q e = elim (Option-cases (find s k t)) [
    | inl f ↦ emplace-Rows P s k p r t u v q (ground arith)
    | inr (old, f) ↦ ground (arith, modify-Rows P s k p r t v q)
  ]

-- A sum over the table, of what is zero in the row that a missing one is made from.
module _ {R : Type 0} (f : ℕ → ℕ → R → ℤ) where
  pub total-set_row :
      (s k p : ℕ) (r new : R) (t u : Table R)
      → f s k new ≡ pos 0
      → set_row (find s k t) s k p r t ≡ ok u
      → total f u +ℤ f s k (row_or (find s k t) new) ≡ total f t +ℤ f s k r
  total-set_row s k p r new t u zero_new e = elim (Option-cases (find s k t)) [
    | inl g ↦
        let added = total-emplace f s k p r t u (ground arith) in
        rw g (rw zero_new (rw added (omega int_laws)))
    | inr (old, g) ↦
        let same : u ≡ modify_same s k r t = ground arith in
        rw g (rw same (total-modify_same f s k r old t g))
  ]

  pub total-set_row_paid :
      (s k p : ℕ) (r new : R) (t u : Table R)
      → f s k new ≡ pos 0
      → set_row_paid (find s k t) s k p r t ≡ ok u
      → total f u +ℤ f s k (row_or (find s k t) new) ≡ total f t +ℤ f s k r
  total-set_row_paid s k p r new t u zero_new e = elim (Option-cases (find s k t)) [
    | inl g ↦
        let added = total-emplace f s k p r t u (ground arith) in
        rw g (rw zero_new (rw added (omega int_laws)))
    | inr (old, g) ↦
        let same : u ≡ modify s k p r t = ground arith in
        rw g (rw same (total-modify f s k p r old t g))
  ]
