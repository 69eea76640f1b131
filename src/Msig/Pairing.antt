-- ===== src/Msig/Pairing.antt =====
-- The pairing of the tables of amax.msig, and what its time locks and writes do to it.
use amax_contracts.Common.{
  ℕ, ◌+◌, ◌*◌, ◌⊎◌, ◌≡◌, refl, ◌∙◌, not, ◌==◌, ◌&&◌, Option, none, some, [], ◌∷◌, arith, ok,
  Result-cases, Bool-cases, inl, inr,
}
use amax_contracts.Chain.{Name}
use amax_contracts.Chain.Table.{
  Table, contains, modify_same, erase, Rows, modify_same-Rows, erase-Rows, find-erase_ne,
  find-erase_self,
}
use amax_contracts.Msig.{
  TransactionHeader, Proposal, ApprovalsInfo, State, Env, get_approvals, start_lock,
  lock_if_authorized, set_time,
}
use amax_contracts.Msig.Operations.{set_info, stop_lock, unlock_if_unauthorized, drop_proposal}

abbrev pub Unique : {R : Type 0} → Table R → Type 0
Unique t = Rows (λ s k r. Unit {0}) t

pub record IsPaired (st : State) : Type 0 where
  pub proposals_unique : Unique st.proposals
  pub approvals_unique : Unique st.approvals
  pub paired : (p n : Name) → contains p n st.proposals ≡ contains p n st.approvals

module _ {R : Type 0} where
  contains-modify_same :
      (s k a b : ℕ) (r : R) (t : Table R) → contains a b (modify_same s k r t) ≡ contains a b t
  contains-modify_same s k a b r [] = refl
  contains-modify_same s k a b r (x ∷ t) = ground (arith, contains-modify_same s k a b r t)

  contains-erase :
      (s k a b : ℕ) (t : Table R)
      → Unique t
      → contains a b (erase s k t) ≡ (not (a == s && b == k) && contains a b t)
  contains-erase s k a b t u =
      ground (arith, find-erase_ne s k a b t, find-erase_self (λ s k r. Unit {0}) s k t u)

pub set_time-IsPaired :
    (p n : Name) (prop : Proposal) (time : ℕ) (st : State)
    → IsPaired st
    → IsPaired (set_time p n prop time st)
set_time-IsPaired p n prop time st v = record {
  proposals_unique = modify_same-Rows (λ s k r. Unit {0}) p n _ st.proposals v.proposals_unique tt;
  approvals_unique = v.approvals_unique;
  paired = λ a b. contains-modify_same p n a b _ st.proposals ∙ v.paired a b;
}

pub set_info-IsPaired :
    (p n : Name) (info : ApprovalsInfo) (st : State) → IsPaired st → IsPaired (set_info p n info st)
set_info-IsPaired p n info st v = record {
  proposals_unique = v.proposals_unique;
  approvals_unique =
      modify_same-Rows (λ s k r. Unit {0}) p n info st.approvals v.approvals_unique tt;
  paired = λ a b. rw (contains-modify_same p n a b info st.approvals) (v.paired a b);
}

pub drop_proposal-IsPaired :
    (p n : Name) (st : State) → IsPaired st → IsPaired (drop_proposal p n st)
drop_proposal-IsPaired p n st v = record {
  proposals_unique = erase-Rows (λ s k r. Unit {0}) p n st.proposals v.proposals_unique;
  approvals_unique = erase-Rows (λ s k r. Unit {0}) p n st.approvals v.approvals_unique;
  paired = λ a b. rw (
    contains-erase p n a b st.proposals v.proposals_unique,
    contains-erase p n a b st.approvals v.approvals_unique,
    v.paired a b,
  );
}

-- The time lock is left alone, or is set.
abbrev pub Locks : Name → Name → Proposal → State → State → Type 0
Locks p n prop st st' = (st' ≡ st) ⊎ ((time : ℕ) × (st' ≡ set_time p n prop time st))

pub Locks-IsPaired :
    (p n : Name) (prop : Proposal) (st st' : State)
    → Locks p n prop st st'
    → IsPaired st
    → IsPaired st'
Locks-IsPaired p n prop st st' (inl same) v = rw same v
Locks-IsPaired p n prop st st' (inr (time, set)) v = rw set (set_time-IsPaired p n prop time st v)

lock_if_authorized-Locks :
    (env : Env) (p n : Name) (prop : Proposal) (delay : ℕ) (st st' : State)
    → lock_if_authorized env p n prop delay st ≡ ok st'
    → Locks p n prop st st'
unfolding lock_if_authorized
lock_if_authorized-Locks env p n prop delay st st' h =
    elim (Result-cases (get_approvals env p n st)) [
      | inr (m, g) ↦ absurd (ground arith)
      | inl (levels, g) ↦ elim (Bool-cases (env.is_authorized prop.packed_transaction levels)) [
        | inl yes_ ↦ inr (env.now + delay * 1000000, ground arith)
        | inr no_ ↦ inl (ground arith)
      ]
    ]

pub start_lock-Locks :
    (env : Env) (p n : Name) (prop : Proposal) (h : TransactionHeader) (t : Option ℕ)
    (st st' : State)
    → start_lock env p n prop h t st ≡ ok st'
    → Locks p n prop st st'
unfolding start_lock
start_lock-Locks env p n prop h none st st' e = inl (ground arith)
start_lock-Locks env p n prop h (some time) st st' e =
    elim (Bool-cases (not (h.delay_sec == 0) && time == 0)) [
      | inl due ↦ lock_if_authorized-Locks env p n prop h.delay_sec st st' (rw due at e)
      | inr free ↦ let same = rw free at e in inl (ground arith)
    ]

unlock_if_unauthorized-Locks :
    (env : Env) (p n : Name) (prop : Proposal) (st st' : State)
    → unlock_if_unauthorized env p n prop st ≡ ok st'
    → Locks p n prop st st'
unfolding unlock_if_unauthorized
unlock_if_unauthorized-Locks env p n prop st st' h =
    elim (Result-cases (get_approvals env p n st)) [
      | inr (m, g) ↦ absurd (ground arith)
      | inl (levels, g) ↦ elim (Bool-cases (env.is_authorized prop.packed_transaction levels)) [
        | inl yes_ ↦ inl (ground arith)
        | inr no_ ↦ inr (0, ground arith)
      ]
    ]

pub stop_lock-Locks :
    (env : Env) (p n : Name) (prop : Proposal) (t : Option ℕ) (st st' : State)
    → stop_lock env p n prop t st ≡ ok st'
    → Locks p n prop st st'
unfolding stop_lock
stop_lock-Locks env p n prop none st st' e = inl (ground arith)
stop_lock-Locks env p n prop (some time) st st' e = elim (Bool-cases (time == 0)) [
  | inl free ↦ let same = rw free at e in inl (ground arith)
  | inr due ↦ unlock_if_unauthorized-Locks env p n prop st st' (rw due at e)
]
