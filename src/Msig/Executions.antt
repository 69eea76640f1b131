-- ===== src/Msig/Executions.antt =====
-- `exec` of amax.msig: what it needs, and what it does.
use amax_contracts.Common.{
  ℕ, ◌≤◌, ◌≡◌, ◌≢◌, ◌⊎◌, refl, true, ◌==◌, Option, none, some, List, ◌++◌, arith, ok, err,
  Option-cases, Result-cases, Bool-cases, inl, inr,
}
use amax_contracts.Chain.{Name}
use amax_contracts.Chain.Table.{find, Rows, find-erase_self}
use amax_contracts.Msig.{
  Bytes, TransactionHeader, Proposal, ApprovalsInfo, State, Env, now_sec, still_valid,
  get_approvals,
}
use amax_contracts.Msig.Operations.{drop_proposal, may_exec, exec}

-- A transaction without a delay, or one whose time lock has been started and is over.
abbrev pub Unlocked : Env → TransactionHeader → Option ℕ → Type 0
Unlocked env h earliest =
    (h.delay_sec ≡ 0) ⊎ ((time : ℕ) × (earliest ≡ some time) × (time ≢ 0) × (time ≤ env.now))

may_exec-Unlocked :
    (env : Env) (h : TransactionHeader) (t : Option ℕ) → may_exec env h t ≡ ok tt → Unlocked env h t
may_exec-Unlocked env h none e = inl (ground arith)
may_exec-Unlocked env h (some time) e = elim (Bool-cases (time == 0)) [
  | inl unset ↦ inl (ground arith)
  | inr set ↦ inr (time, refl, ground arith, ground arith)
]

-- What holds of a proposal's row when its transaction is executed.
abbrev pub Executable : Env → State → Name → Name → Proposal → Type 0
Executable env st p n prop =
    ((h : TransactionHeader) × (env.header prop.packed_transaction ≡ ok h)
      × (now_sec env ≤ h.expiration)
      × Unlocked env h prop.earliest_exec_time)
    × (env.context_free_empty prop.packed_transaction ≡ ok true)
    × ((info : ApprovalsInfo) × (find p n st.approvals ≡ some info)
        × (env.is_authorized prop.packed_transaction (still_valid env st info.provided_approvals)
            ≡ true))

-- An execution that goes through was signed by its executer; the transaction has not expired, holds
-- no context-free action, is authorized by the approvals that still count, and has no delay or is
-- past its time lock. Its actions are sent, and the proposal and its approvals are gone.
pub exec-Executable :
    (env : Env) (p n executer : Name) (st st' : State)
    → exec env p n executer st ≡ ok st'
    → (env.has_auth executer ≡ true)
      × ((prop : Proposal) × (acts : List Bytes) × (find p n st.proposals ≡ some prop)
          × (env.actions prop.packed_transaction ≡ ok acts)
          × Executable env st p n prop
          × (st' ≡ drop_proposal p n (record st { sent = st.sent ++ acts })))
unfolding exec get_approvals
exec-Executable env p n executer st st' h = elim (Option-cases (find p n st.proposals)) [
  | inl e ↦ absurd (ground arith)
  | inr (prop, e) ↦ elim (Option-cases (find p n st.approvals)) [
    | inl f ↦ absurd (ground arith)
    | inr (apps, f) ↦ elim (Result-cases (env.header prop.packed_transaction)) [
      | inr (m, r) ↦ absurd (ground arith)
      | inl (header, r) ↦ elim (Result-cases (env.actions prop.packed_transaction)) [
        | inr (m, a) ↦ absurd (ground arith)
        | inl (acts, a) ↦ (
          ground arith,
          (
            prop,
            acts,
            e,
            a,
            (
              (
                header,
                r,
                ground arith,
                may_exec-Unlocked env header prop.earliest_exec_time (ground arith),
              ),
              ground arith,
              (apps, f, ground arith),
            ),
            ground arith,
          ),
        )
      ]
    ]
  ]
]

-- A proposal is executed at most once: a second execution, whoever signs it, finds no proposal.
pub exec_once :
    (env env' : Env) (p n executer executer' : Name) (st st' : State)
    → Rows (λ s k r. Unit {0}) st.proposals
    → exec env p n executer st ≡ ok st'
    → env'.has_auth executer' ≡ true
    → exec env' p n executer' st' ≡ err "proposal not found"
unfolding exec
exec_once env env' p n executer executer' st st' unique h auth =
    let (signed, (prop, acts, e, a, able, final)) = exec-Executable env p n executer st st' h in
    let gone : find p n st'.proposals ≡ none =
      rw final (find-erase_self (λ s k r. Unit {0}) p n st.proposals unique) in
    ground arith
