-- ===== src/Msig/Reachable.antt =====
-- Every proposal of amax.msig has its row of approvals, and no other row of approvals exists.
use amax_contracts.Common.{
  ◌≡◌, refl, Option, some, List, [], ◌∷◌, ◌++◌, map, arith, ok, Option-cases, Result-cases, inl,
  inr,
}
use amax_contracts.Chain.{Name}
use amax_contracts.Chain.Table.{find}
use amax_contracts.Msig.{
  PermissionLevel, Bytes, Approval, ApprovalsInfo, State, Env, propose, unapproved, erase_level,
}
use amax_contracts.Msig.Operations.{
  set_info, approve, unapprove, drop_proposal, cancel, exec, invalidate, Action, proposing,
  approving, unapproving, cancelling, executing, invalidating, apply,
}
use amax_contracts.Msig.Executions.{exec-Executable}
use amax_contracts.Msig.Pairing.{
  IsPaired, set_info-IsPaired, drop_proposal-IsPaired, Locks-IsPaired, start_lock-Locks,
  stop_lock-Locks,
}

propose-IsPaired :
    (env : Env) (p n : Name) (requested : List PermissionLevel) (trx : Bytes) (st st' : State)
    → propose env p n requested trx st ≡ ok st'
    → IsPaired st
    → IsPaired st'
unfolding propose
propose-IsPaired env p n requested trx st st' h v = elim (Option-cases (find p n st.proposals)) [
  | inr (prop, e) ↦ absurd (ground arith)
  | inl e ↦ elim (Option-cases (find p n st.approvals)) [
    | inr (info, f) ↦ absurd (ground (arith, v.paired p n))
    | inl f ↦
        let rows : (st'.proposals
              ≡ record {
                scope = p;
                key = n;
                payer = p;
                row = record {
                  proposal_name = n;
                  packed_transaction = trx;
                  earliest_exec_time = some 0;
                };
              }
                ∷ st.proposals)
            × (st'.approvals
                ≡ record {
                  scope = p;
                  key = n;
                  payer = p;
                  row = record {
                    version = 1;
                    proposal_name = n;
                    requested_approvals = map unapproved requested;
                    provided_approvals = [];
                  };
                }
                  ∷ st.approvals) =
          (ground arith, ground arith) in
        record {
          proposals_unique = rw rows.0 (tt, e, v.proposals_unique);
          approvals_unique = rw rows.1 (tt, f, v.approvals_unique);
          paired = λ a b. rw rows.0 (rw rows.1 (ground (arith, v.paired a b)));
        }
  ]
]

approve-IsPaired :
    (env : Env) (p n : Name) (level : PermissionLevel) (hash : Option Bytes) (st st' : State)
    → approve env p n level hash st ≡ ok st'
    → IsPaired st
    → IsPaired st'
unfolding approve
approve-IsPaired env p n level hash st st' h v = elim (Option-cases (find p n st.proposals)) [
  | inl e ↦ absurd (ground arith)
  | inr (prop, e) ↦ elim (Option-cases (find p n st.approvals)) [
    | inl f ↦ absurd (ground arith)
    | inr (apps, f) ↦ elim (Option-cases (erase_level level apps.requested_approvals)) [
      | inl g ↦ absurd (ground arith)
      | inr (left, g) ↦ elim (Result-cases (env.header prop.packed_transaction)) [
        | inr (m, r) ↦ absurd (ground arith)
        | inl (header, r) ↦
            let given : Approval = record { level = level; time = env.now } in
            let info : ApprovalsInfo = record apps {
              requested_approvals = left;
              provided_approvals = apps.provided_approvals ++ given ∷ [];
            } in
            let mid = set_info p n info st in
            Locks-IsPaired p n prop mid st'
              (start_lock-Locks env p n prop header prop.earliest_exec_time mid st' (ground arith))
              (set_info-IsPaired p n info st v)
      ]
    ]
  ]
]

unapprove-IsPaired :
    (env : Env) (p n : Name) (level : PermissionLevel) (st st' : State)
    → unapprove env p n level st ≡ ok st'
    → IsPaired st
    → IsPaired st'
unfolding unapprove
unapprove-IsPaired env p n level st st' h v = elim (Option-cases (find p n st.proposals)) [
  | inl e ↦ absurd (ground arith)
  | inr (prop, e) ↦ elim (Option-cases (find p n st.approvals)) [
    | inl f ↦ absurd (ground arith)
    | inr (apps, f) ↦ elim (Option-cases (erase_level level apps.provided_approvals)) [
      | inl g ↦ absurd (ground arith)
      | inr (left, g) ↦
          let asked : Approval = record { level = level; time = env.now } in
          let info : ApprovalsInfo = record apps {
            requested_approvals = apps.requested_approvals ++ asked ∷ [];
            provided_approvals = left;
          } in
          let mid = set_info p n info st in
          Locks-IsPaired p n prop mid st'
            (stop_lock-Locks env p n prop prop.earliest_exec_time mid st' (ground arith))
            (set_info-IsPaired p n info st v)
    ]
  ]
]

cancel-IsPaired :
    (env : Env) (p n canceler : Name) (st st' : State)
    → cancel env p n canceler st ≡ ok st'
    → IsPaired st
    → IsPaired st'
unfolding cancel
cancel-IsPaired env p n canceler st st' h v =
    let final : st' ≡ drop_proposal p n st = ground arith in
    rw final (drop_proposal-IsPaired p n st v)

-- The other columns do not matter.
same_tables-IsPaired :
    (st st' : State)
    → st'.proposals ≡ st.proposals
    → st'.approvals ≡ st.approvals
    → IsPaired st
    → IsPaired st'
same_tables-IsPaired st st' e f v = record {
  proposals_unique = rw e v.proposals_unique;
  approvals_unique = rw f v.approvals_unique;
  paired = λ a b. rw e (rw f (v.paired a b));
}

exec-IsPaired :
    (env : Env) (p n executer : Name) (st st' : State)
    → exec env p n executer st ≡ ok st'
    → IsPaired st
    → IsPaired st'
exec-IsPaired env p n executer st st' h v =
    let (signed, (prop, acts, e, a, able, final)) = exec-Executable env p n executer st st' h in
    same_tables-IsPaired (drop_proposal p n st) st' (rw final) (rw final)
      (drop_proposal-IsPaired p n st v)

invalidate-IsPaired :
    (env : Env) (account : Name) (st st' : State)
    → invalidate env account st ≡ ok st'
    → IsPaired st
    → IsPaired st'
unfolding invalidate
invalidate-IsPaired env account st st' h v =
    same_tables-IsPaired st st' (ground arith) (ground arith) v

apply-IsPaired :
    (env : Env) (a : Action) (st st' : State) → apply env a st ≡ ok st' → IsPaired st → IsPaired st'
unfolding apply
apply-IsPaired env (proposing p n requested trx) st st' h v =
    propose-IsPaired env p n requested trx st st' h v
apply-IsPaired env (approving p n level hash) st st' h v =
    approve-IsPaired env p n level hash st st' h v
apply-IsPaired env (unapproving p n level) st st' h v = unapprove-IsPaired env p n level st st' h v
apply-IsPaired env (cancelling p n canceler) st st' h v =
    cancel-IsPaired env p n canceler st st' h v
apply-IsPaired env (executing p n executer) st st' h v = exec-IsPaired env p n executer st st' h v
apply-IsPaired env (invalidating account) st st' h v = invalidate-IsPaired env account st st' h v

abbrev pub deployed : State
deployed = record { proposals = []; approvals = []; invalidations = []; sent = [] }

-- A state that the contract comes to from its deployment, through actions that went through.
pub data Reach : State → Type 0 where
  start : Reach deployed
  next : (env : Env) (a : Action) {st st' : State} → Reach st → apply env a st ≡ ok st' → Reach st'

-- After any run from the deployment each proposal has its approvals, and no approvals stand alone.
pub Reach-IsPaired : {st : State} → Reach st → IsPaired st
Reach-IsPaired start = record { proposals_unique = tt; approvals_unique = tt; paired = λ p n. refl }
Reach-IsPaired (next env a {st} {st'} r h) = apply-IsPaired env a st st' h (Reach-IsPaired r)
