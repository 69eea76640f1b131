-- ===== src/Msig/Tests.antt =====
-- A proposal of amax.msig from its start to its execution.
use amax_contracts.Common.{
  ◌≡◌, ◌==◌, ◌&&◌, refl, none, some, List, [], ◌∷◌, ◌++◌, arith, ok, err, true, false, ltb, length,
}
use amax_contracts.Chain.{Name}
use amax_contracts.Chain.Sample.{signed_by}
use amax_contracts.Chain.Table.{find}
use amax_contracts.Msig.{
  PermissionLevel, Bytes, Transactions, Proposal, Approval, ApprovalsInfo, State, Env, propose,
  unapproved, still_valid, get_approvals, erase_level, start_lock, lock_if_authorized,
}
use amax_contracts.Msig.Operations.{
  approve, unapprove, stop_lock, unlock_if_unauthorized, exec, invalidate, drop_proposal, proposing,
  approving, executing, apply,
}
use amax_contracts.Msig.Approvals.{Moves, approve-Moves, unapprove-Moves}
use amax_contracts.Msig.Executions.{Executable, exec-Executable, exec_once}
use amax_contracts.Msig.Invalidations.{still_valid-invalidate}
use amax_contracts.Msig.Pairing.{IsPaired}
use amax_contracts.Msig.Reachable.{start, next, deployed, Reach-IsPaired}

-- Transactions that expire after 100 seconds, of one action, and that two levels authorize.
abbrev transactions : Transactions
transactions = record {
  header = λ trx. ok (record { expiration = 100; delay_sec = 0 });
  context_free_empty = λ trx. ok true;
  actions = λ trx. ok (trx ∷ []);
  has_sha256 = λ trx hash. true;
  is_authorized = λ trx levels. ltb 1 (length levels);
}

abbrev env : Env
env = record {
  chain = signed_by 50 (1 ∷ 2 ∷ []) 3000000;
  has_level = λ l. true;
  transactions = transactions;
}

abbrev active : Name → PermissionLevel
active n = record { actor = n; permission = 9 }

abbrev both : List PermissionLevel
both = active 1 ∷ active 2 ∷ []

-- The state with the approvals of a proposal of 1, called 4.
abbrev holding : ApprovalsInfo → State
holding info = record {
  proposals =
      record {
        scope = 1;
        key = 4;
        payer = 1;
        row = record {
          proposal_name = 4;
          packed_transaction = 8 ∷ [];
          earliest_exec_time = some 0;
        };
      }
      ∷ [];
  approvals = record { scope = 1; key = 4; payer = 1; row = info } ∷ [];
  invalidations = [];
  sent = [];
}

abbrev given : Name → Approval
given n = record { level = active n; time = 3000000 }

abbrev proposed : State
proposed = holding (record {
  version = 1;
  proposal_name = 4;
  requested_approvals = unapproved (active 1) ∷ unapproved (active 2) ∷ [];
  provided_approvals = [];
})

abbrev approved_once : State
approved_once = holding (record {
  version = 1;
  proposal_name = 4;
  requested_approvals = unapproved (active 2) ∷ [];
  provided_approvals = given 1 ∷ [];
})

abbrev approved : State
approved = holding (record {
  version = 1;
  proposal_name = 4;
  requested_approvals = [];
  provided_approvals = given 1 ∷ given 2 ∷ [];
})

abbrev withdrawn : State
withdrawn = holding (record {
  version = 1;
  proposal_name = 4;
  requested_approvals = given 1 ∷ [];
  provided_approvals = given 2 ∷ [];
})

abbrev executed : State
executed = record { proposals = []; approvals = []; invalidations = []; sent = (8 ∷ []) ∷ [] }

propose-deployed : propose env 1 4 both (8 ∷ []) deployed ≡ ok proposed
unfolding propose
propose-deployed = refl

approve-proposed : approve env 1 4 (active 1) none proposed ≡ ok approved_once
unfolding approve erase_level start_lock lock_if_authorized
approve-proposed = refl

approve-approved_once : approve env 1 4 (active 2) none approved_once ≡ ok approved
unfolding approve erase_level start_lock lock_if_authorized
approve-approved_once = refl

unapprove-approved : unapprove env 1 4 (active 1) approved ≡ ok withdrawn
unfolding unapprove erase_level stop_lock unlock_if_unauthorized
unapprove-approved = refl

exec_too_early : exec env 1 4 2 approved_once ≡ err "transaction authorization failed"
unfolding exec get_approvals still_valid
exec_too_early = refl

exec-approved : exec env 1 4 2 approved ≡ ok executed
unfolding exec get_approvals still_valid
exec-approved = refl

approve-Moves_example :
    (env.has_level (active 1) ≡ true)
    × ((info : ApprovalsInfo) × (info' : ApprovalsInfo) × (find 1 4 proposed.approvals ≡ some info)
        × (find 1 4 approved_once.approvals ≡ some info')
        × Moves
            (active 1)
            info.requested_approvals
            info'.requested_approvals
            info.provided_approvals
            info'.provided_approvals)
    × ((a b : Name)
        → (a == 1 && b == 4) ≡ false
        → (find a b approved_once.approvals ≡ find a b proposed.approvals)
          × (find a b approved_once.proposals ≡ find a b proposed.proposals))
approve-Moves_example =
    approve-Moves env 1 4 (active 1) none proposed approved_once approve-proposed

unapprove-Moves_example :
    (env.has_level (active 1) ≡ true)
    × ((info : ApprovalsInfo) × (info' : ApprovalsInfo) × (find 1 4 approved.approvals ≡ some info)
        × (find 1 4 withdrawn.approvals ≡ some info')
        × Moves
            (active 1)
            info.provided_approvals
            info'.provided_approvals
            info.requested_approvals
            info'.requested_approvals)
    × ((a b : Name)
        → (a == 1 && b == 4) ≡ false
        → (find a b withdrawn.approvals ≡ find a b approved.approvals)
          × (find a b withdrawn.proposals ≡ find a b approved.proposals))
unapprove-Moves_example = unapprove-Moves env 1 4 (active 1) approved withdrawn unapprove-approved

exec-Executable_example :
    (env.has_auth 2 ≡ true)
    × ((prop : Proposal) × (acts : List Bytes) × (find 1 4 approved.proposals ≡ some prop)
        × (env.actions prop.packed_transaction ≡ ok acts)
        × Executable env approved 1 4 prop
        × (executed ≡ drop_proposal 1 4 (record approved { sent = approved.sent ++ acts })))
exec-Executable_example = exec-Executable env 1 4 2 approved executed exec-approved

exec_once_example : exec env 1 4 1 executed ≡ err "proposal not found"
exec_once_example = exec_once env env 1 4 2 1 approved executed (tt, refl, tt) exec-approved refl

abbrev invalid : State
invalid = record approved {
  invalidations =
      record {
        scope = 50;
        key = 1;
        payer = 1;
        row = record { account = 1; last_invalidation_time = 3000000 };
      }
      ∷ [];
}

still_valid-invalidate_example :
    still_valid env invalid (given 1 ∷ given 2 ∷ []) ≡ still_valid env approved (given 2 ∷ [])
unfolding invalidate
still_valid-invalidate_example =
    still_valid-invalidate env 1 approved invalid (given 1 ∷ given 2 ∷ []) refl (omega arith)

Reach-IsPaired_example : IsPaired executed
unfolding apply
Reach-IsPaired_example = Reach-IsPaired (
    next env (executing 1 4 2)
      (next env (approving 1 4 (active 2) none)
        (next env (approving 1 4 (active 1) none)
          (next env (proposing 1 4 both (8 ∷ [])) start propose-deployed) approve-proposed)
        approve-approved_once)
      exec-approved)
