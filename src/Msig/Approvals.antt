-- ===== src/Msig/Approvals.antt =====
-- Approvals of amax.msig: `approve` and `unapprove` move one level between the two lists of a
-- proposal, and only approvals that are later than the last invalidation count.
use amax_contracts.Common.{
  ℕ, ◌+◌, ◌*◌, ◌≡◌, refl, ◌∙◌, false, true, false, ◌&&◌, ◌==◌, if◌then◌else◌, Option, none, some,
  List, [], ◌∷◌, ◌++◌, arith, ok, not, Bool-cases, with_ok, Option-cases, Result-cases, inl, inr,
}
use amax_contracts.Chain.{Name}
use amax_contracts.Chain.Table.{find, find-modify_same}
use amax_contracts.Msig.{
  PermissionLevel, level_eq, Bytes, TransactionHeader, Proposal, Approval, ApprovalsInfo, State,
  Env, get_approvals, erase_level, set_time, start_lock, lock_if_authorized,
}
use amax_contracts.Msig.Operations.{set_info, approve, unapprove, stop_lock, unlock_if_unauthorized}

-- How often a level stands on a list of approvals.
abbrev pub count : PermissionLevel → List Approval → ℕ
count l [] = 0
count l (a ∷ rest) = (if level_eq a.level l then 1 else 0) + count l rest

count-append :
    (l : PermissionLevel) (xs ys : List Approval) → count l (xs ++ ys) ≡ count l xs + count l ys
count-append l [] ys = omega arith
count-append l (x ∷ xs) ys = omega (arith, count-append l xs ys)

count-erase_level :
    (l m : PermissionLevel) (xs ys : List Approval)
    → erase_level l xs ≡ some ys
    → count m xs ≡ count m ys + (if level_eq l m then 1 else 0)
unfolding erase_level
count-erase_level l m [] ys h = cc
count-erase_level l m (x ∷ xs) ys h = elim (Option-cases (erase_level l xs)) [
  | inl e ↦ ground arith
  | inr (zs, e) ↦ ground (arith, count-erase_level l m xs zs e)
]

approvals-start_lock :
    (env : Env) (p n : Name) (prop : Proposal) (h : TransactionHeader) (t : Option ℕ)
    (st st' : State)
    → start_lock env p n prop h t st ≡ ok st'
    → st'.approvals ≡ st.approvals
unfolding start_lock lock_if_authorized get_approvals
approvals-start_lock env p n prop h none st st' e = ground arith
approvals-start_lock env p n prop h (some time) st st' e = ground arith

approvals-stop_lock :
    (env : Env) (p n : Name) (prop : Proposal) (t : Option ℕ) (st st' : State)
    → stop_lock env p n prop t st ≡ ok st'
    → st'.approvals ≡ st.approvals
unfolding stop_lock unlock_if_unauthorized get_approvals
approvals-stop_lock env p n prop none st st' e = ground arith
approvals-stop_lock env p n prop (some time) st st' e = ground arith

-- Of the proposals, a change of the time lock touches one only.
module _ (env : Env) (p n : Name) (prop old : Proposal) where
  others-set_time :
      (t : ℕ) (st : State) (a b : Name)
      → find p n st.proposals ≡ some old
      → (a == p && b == n) ≡ false
      → find a b (set_time p n prop t st).proposals ≡ find a b st.proposals
  others-set_time t st a b f other =
      find-modify_same p n a b (record prop { earliest_exec_time = some t }) old st.proposals f
      ∙ rw other refl

  start_lock-others :
      (h : TransactionHeader) (t : Option ℕ) (st st' : State)
      → find p n st.proposals ≡ some old
      → start_lock env p n prop h t st ≡ ok st'
      → (a b : Name) → (a == p && b == n) ≡ false
      → find a b st'.proposals ≡ find a b st.proposals
  unfolding start_lock lock_if_authorized
  start_lock-others h none st st' f e a b other = ground arith
  start_lock-others h (some time) st st' f e a b other =
      let moved = others-set_time (env.now + h.delay_sec * 1000000) st a b f other in
      elim (Bool-cases (not (h.delay_sec == 0) && time == 0)) [
        | inl c ↦
            with_ok (get_approvals env p n st) (λ m q. absurd (ground arith))
              λ levels g. elim (Bool-cases (env.is_authorized prop.packed_transaction levels)) [
                | inl k ↦
                    let final : st' ≡ set_time p n prop (env.now + h.delay_sec * 1000000) st =
                      ground arith in
                    rw final moved
                | inr k ↦ let final : st' ≡ st = ground arith in rw final refl
              ]
        | inr c ↦ let final : st' ≡ st = ground arith in rw final refl
      ]

  stop_lock-others :
      (t : Option ℕ) (st st' : State)
      → find p n st.proposals ≡ some old
      → stop_lock env p n prop t st ≡ ok st'
      → (a b : Name) → (a == p && b == n) ≡ false
      → find a b st'.proposals ≡ find a b st.proposals
  unfolding stop_lock unlock_if_unauthorized
  stop_lock-others none st st' f e a b other = ground arith
  stop_lock-others (some time) st st' f e a b other =
      let moved = others-set_time 0 st a b f other in
      elim (Bool-cases (time == 0)) [
        | inl c ↦ let final : st' ≡ st = ground arith in rw final refl
        | inr c ↦
            with_ok (get_approvals env p n st) (λ m q. absurd (ground arith))
              λ levels g. elim (Bool-cases (env.is_authorized prop.packed_transaction levels)) [
                | inl k ↦ let final : st' ≡ st = ground arith in rw final refl
                | inr k ↦ let final : st' ≡ set_time p n prop 0 st = ground arith in rw final moved
              ]
      ]

-- One level goes from the first pair of lists to the second: from `lost` to `got`.
abbrev pub Moves :
    PermissionLevel → List Approval → List Approval → List Approval → List Approval → Type 0
Moves level lost lost' got got' =
    (m : PermissionLevel)
    → (count m lost ≡ count m lost' + (if level_eq level m then 1 else 0))
      × (count m got' ≡ count m got + (if level_eq level m then 1 else 0))

-- An approval that goes through was signed with its level, which it moves from the requested to the
-- provided approvals; every other level stays, and so do the rows of every other proposal, both the
-- one with its transaction and time lock and the one with its approvals.
pub approve-Moves :
    (env : Env) (p n : Name) (level : PermissionLevel) (hash : Option Bytes) (st st' : State)
    → approve env p n level hash st ≡ ok st'
    → (env.has_level level ≡ true)
      × ((info : ApprovalsInfo) × (info' : ApprovalsInfo) × (find p n st.approvals ≡ some info)
          × (find p n st'.approvals ≡ some info')
          × Moves level info.requested_approvals info'.requested_approvals info.provided_approvals
              info'.provided_approvals)
      × ((a b : Name)
          → (a == p && b == n) ≡ false
          → (find a b st'.approvals ≡ find a b st.approvals)
            × (find a b st'.proposals ≡ find a b st.proposals))
unfolding approve
approve-Moves env p n level hash st st' h = elim (Option-cases (find p n st.proposals)) [
  | inl e ↦ absurd (ground arith)
  | inr (prop, e) ↦ elim (Option-cases (find p n st.approvals)) [
    | inl f ↦ absurd (ground arith)
    | inr (apps, f) ↦ elim (Option-cases (erase_level level apps.requested_approvals)) [
      | inl g ↦ absurd (ground arith)
      | inr (left, g) ↦ elim (Result-cases (env.header prop.packed_transaction)) [
        | inr (m, r) ↦ absurd (ground arith)
        | inl (header, r) ↦
            let given : Approval = record { level = level; time = env.now } in
            let info : ApprovalsInfo = record apps {
              requested_approvals = left;
              provided_approvals = apps.provided_approvals ++ given ∷ [];
            } in
            let mid = set_info p n info st in
            let same : st'.approvals ≡ mid.approvals =
              approvals-start_lock env p n prop header prop.earliest_exec_time mid st'
                (ground arith) in
            (
              ground arith,
              (
                apps,
                info,
                f,
                rw same (ground (arith, find-modify_same p n p n info apps st.approvals f)),
                λ m. (
                  count-erase_level level m apps.requested_approvals left g,
                  rw (count-append m apps.provided_approvals (given ∷ [])) (omega arith),
                ),
              ),
              λ a b other. (
                rw same (ground (arith, find-modify_same p n a b info apps st.approvals f)),
                start_lock-others env p n prop prop header prop.earliest_exec_time mid st' e
                    (ground arith) a b other,
              ),
            )
      ]
    ]
  ]
]

-- Withdrawing an approval is the reverse: it was signed with its level, which goes back to the
-- requested approvals; every other level stays, and so do the rows of every other proposal.
pub unapprove-Moves :
    (env : Env) (p n : Name) (level : PermissionLevel) (st st' : State)
    → unapprove env p n level st ≡ ok st'
    → (env.has_level level ≡ true)
      × ((info : ApprovalsInfo) × (info' : ApprovalsInfo) × (find p n st.approvals ≡ some info)
          × (find p n st'.approvals ≡ some info')
          × Moves level info.provided_approvals info'.provided_approvals info.requested_approvals
              info'.requested_approvals)
      × ((a b : Name)
          → (a == p && b == n) ≡ false
          → (find a b st'.approvals ≡ find a b st.approvals)
            × (find a b st'.proposals ≡ find a b st.proposals))
unfolding unapprove
unapprove-Moves env p n level st st' h = elim (Option-cases (find p n st.proposals)) [
  | inl e ↦ absurd (ground arith)
  | inr (prop, e) ↦ elim (Option-cases (find p n st.approvals)) [
    | inl f ↦ absurd (ground arith)
    | inr (apps, f) ↦ elim (Option-cases (erase_level level apps.provided_approvals)) [
      | inl g ↦ absurd (ground arith)
      | inr (left, g) ↦
          let asked : Approval = record { level = level; time = env.now } in
          let info : ApprovalsInfo = record apps {
            requested_approvals = apps.requested_approvals ++ asked ∷ [];
            provided_approvals = left;
          } in
          let mid = set_info p n info st in
          let same : st'.approvals ≡ mid.approvals =
            approvals-stop_lock env p n prop prop.earliest_exec_time mid st' (ground arith) in
          (
            ground arith,
            (
              apps,
              info,
              f,
              rw same (ground (arith, find-modify_same p n p n info apps st.approvals f)),
              λ m. (
                count-erase_level level m apps.provided_approvals left g,
                rw (count-append m apps.requested_approvals (asked ∷ [])) (omega arith),
              ),
            ),
            λ a b other. (
              rw same (ground (arith, find-modify_same p n a b info apps st.approvals f)),
              stop_lock-others env p n prop prop prop.earliest_exec_time mid st' e (ground arith) a
                  b other,
            ),
          )
    ]
  ]
]
