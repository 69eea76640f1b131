-- ===== src/Msig/Operations.antt =====
-- src_system/contracts/amax.msig: approving, withdrawing an approval, cancelling, executing and
-- invalidating.
use amax_contracts.Common.{
  ℕ, ◌==◌, ltb, leb, if◌then◌else◌, Option, none, some, List, [], ◌∷◌, ◌++◌, Result, ok, ◌>>=◌,
  ◌>>◌, check, or_err,
}
use amax_contracts.Chain.{Name, require_auth}
use amax_contracts.Chain.Table.{find, contains, emplace, modify, modify_same, erase}
use amax_contracts.Msig.{
  PermissionLevel, Bytes, TransactionHeader, Proposal, Approval, ApprovalsInfo, Invalidation, State,
  Env, now_sec, get_approvals, propose, erase_level, set_time, start_lock, old_proposal, hash_fits,
}

abbrev pub set_info : Name → Name → ApprovalsInfo → State → State
set_info proposer proposal_name info st = record st {
  approvals = modify_same proposer proposal_name info st.approvals;
}

unfoldable pub approve : Env → Name → Name → PermissionLevel → Option Bytes → State → Result State
approve env proposer proposal_name level proposal_hash st = do
  check (env.has_level level) "missing authority"
  prop ← or_err (find proposer proposal_name st.proposals) "proposal not found"
  check (hash_fits env prop.packed_transaction proposal_hash) "hash mismatch"
  apps ← or_err (find proposer proposal_name st.approvals) "proposal not found"
  left ←
      or_err (erase_level level apps.requested_approvals)
        "approval is not on the list of requested approvals"
  let given : Approval = record { level = level; time = env.now }
  let info : ApprovalsInfo = record apps {
    requested_approvals = left;
    provided_approvals = apps.provided_approvals ++ given ∷ [];
  }
  trx_header ← env.header prop.packed_transaction
  start_lock env proposer proposal_name prop trx_header prop.earliest_exec_time
      (set_info proposer proposal_name info st)

-- The last part of `unapprove`: it stops the time lock if the transaction is no longer authorized.
unfoldable pub unlock_if_unauthorized : Env → Name → Name → Proposal → State → Result State
unlock_if_unauthorized env proposer proposal_name prop st = do
  levels ← get_approvals env proposer proposal_name st
  ok (
      if env.is_authorized prop.packed_transaction levels
      then st
      else set_time proposer proposal_name prop 0 st)

unfoldable pub stop_lock : Env → Name → Name → Proposal → Option ℕ → State → Result State
stop_lock env proposer proposal_name prop none st = do
  trx_header ← env.header prop.packed_transaction
  check (trx_header.delay_sec == 0) old_proposal
  ok st
stop_lock env proposer proposal_name prop (some time) st =
    if time == 0 then ok st else unlock_if_unauthorized env proposer proposal_name prop st

unfoldable pub unapprove : Env → Name → Name → PermissionLevel → State → Result State
unapprove env proposer proposal_name level st = do
  check (env.has_level level) "missing authority"
  apps ← or_err (find proposer proposal_name st.approvals) "proposal not found"
  left ← or_err (erase_level level apps.provided_approvals) "no approval previously granted"
  let asked : Approval = record { level = level; time = env.now }
  let info : ApprovalsInfo = record apps {
    requested_approvals = apps.requested_approvals ++ asked ∷ [];
    provided_approvals = left;
  }
  prop ← or_err (find proposer proposal_name st.proposals) "proposal not found"
  stop_lock env proposer proposal_name prop prop.earliest_exec_time
      (set_info proposer proposal_name info st)

unfoldable pub check_expired : Env → Bytes → Result (Unit {0})
check_expired env trx = do
  trx_header ← env.header trx
  check (ltb trx_header.expiration (now_sec env)) "cannot cancel until expiration"

-- Anybody can cancel once the transaction has expired, and its proposer at any time.
unfoldable pub may_cancel : Env → Name → Name → Bytes → Result (Unit {0})
may_cancel env proposer canceler trx = if canceler == proposer then ok tt else check_expired env trx

abbrev pub drop_proposal : Name → Name → State → State
drop_proposal proposer proposal_name st = record st {
  proposals = erase proposer proposal_name st.proposals;
  approvals = erase proposer proposal_name st.approvals;
}

unfoldable pub cancel : Env → Name → Name → Name → State → Result State
cancel env proposer proposal_name canceler st = do
  require_auth env.chain canceler
  prop ← or_err (find proposer proposal_name st.proposals) "proposal not found"
  may_cancel env proposer canceler prop.packed_transaction
  check (contains proposer proposal_name st.approvals) "proposal not found"
  ok (drop_proposal proposer proposal_name st)

-- The time lock of `exec`.
abbrev pub may_exec : Env → TransactionHeader → Option ℕ → Result (Unit {0})
may_exec env trx_header none = check (trx_header.delay_sec == 0) old_proposal
may_exec env trx_header (some time) =
    if time == 0
    then check (trx_header.delay_sec == 0) old_proposal
    else check (leb time env.now) "too early to execute"

unfoldable pub exec : Env → Name → Name → Name → State → Result State
exec env proposer proposal_name executer st = do
  require_auth env.chain executer
  prop ← or_err (find proposer proposal_name st.proposals) "proposal not found"
  trx_header ← env.header prop.packed_transaction
  check (leb (now_sec env) trx_header.expiration) "transaction expired"
  no_context_free ← env.context_free_empty prop.packed_transaction
  check no_context_free "not allowed to `exec` a transaction with context-free actions"
  actions ← env.actions prop.packed_transaction
  levels ← get_approvals env proposer proposal_name st
  check (env.is_authorized prop.packed_transaction levels) "transaction authorization failed"
  may_exec env trx_header prop.earliest_exec_time
  ok (drop_proposal proposer proposal_name (record st { sent = st.sent ++ actions }))

abbrev invalidated : Name → ℕ → Invalidation
invalidated account now = record { account = account; last_invalidation_time = now }

abbrev invalidate_at : Env → Name → State → Option Invalidation → Result State
invalidate_at env account st none = do
  rows ← emplace env.self account account (invalidated account env.now) st.invalidations
  ok (record st { invalidations = rows })
invalidate_at env account st (some i) = ok (record st {
  invalidations =
      modify env.self account account (record i { last_invalidation_time = env.now })
        st.invalidations;
})

unfoldable pub invalidate : Env → Name → State → Result State
invalidate env account st = do
  require_auth env.chain account
  invalidate_at env account st (find env.self account st.invalidations)

pub data Action : Type 0 where
  proposing : Name → Name → List PermissionLevel → Bytes → Action
  approving : Name → Name → PermissionLevel → Option Bytes → Action
  unapproving : Name → Name → PermissionLevel → Action
  cancelling executing : Name → Name → Name → Action
  invalidating : Name → Action

unfoldable pub apply : Env → Action → State → Result State
apply env (proposing proposer name requested trx) st = propose env proposer name requested trx st
apply env (approving proposer name level hash) st = approve env proposer name level hash st
apply env (unapproving proposer name level) st = unapprove env proposer name level st
apply env (cancelling proposer name canceler) st = cancel env proposer name canceler st
apply env (executing proposer name executer) st = exec env proposer name executer st
apply env (invalidating account) st = invalidate env account st
