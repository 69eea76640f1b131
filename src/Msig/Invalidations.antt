-- ===== src/Msig/Invalidations.antt =====
-- `invalidate` of amax.msig: the account's earlier approvals no longer count.
use amax_contracts.Common.{
  ℕ, ◌≤◌, ◌≡◌, refl, ◌==◌, ltb, if◌then◌else◌, List, [], ◌∷◌, arith, ok, Option-cases, inl, inr,
}
use amax_contracts.Chain.{Name}
use amax_contracts.Chain.Table.{find, find-modify}
use amax_contracts.Msig.{Approval, Invalidation, State, Env, counts, still_valid}
use amax_contracts.Msig.Operations.{invalidate}

-- The approvals of everybody but one account.
abbrev pub without : Name → List Approval → List Approval
without account [] = []
without account (a ∷ rest) =
    if a.level.actor == account then without account rest else a ∷ without account rest

-- Every approval was given no later than a time.
abbrev pub GivenBy : ℕ → List Approval → Type 0
GivenBy time [] = Unit
GivenBy time (a ∷ rest) = (a.time ≤ time) × GivenBy time rest

-- Whether an approval of `a` counts, after `account` was invalidated at the current time.
counts-invalidate :
    (env : Env) (account : Name) (st st' : State) (a : Approval)
    → invalidate env account st ≡ ok st'
    → counts (find env.self a.level.actor st'.invalidations) a ≡ (
        if a.level.actor == account
        then ltb env.now a.time
        else counts (find env.self a.level.actor st.invalidations) a)
unfolding invalidate
counts-invalidate env account st st' a h =
    elim (Option-cases (find env.self account st.invalidations)) [
      | inl e ↦ ground arith
      | inr (i, e) ↦
          let new : Invalidation = record i { last_invalidation_time = env.now } in
          ground (
            arith,
            find-modify env.self account account env.self a.level.actor new i st.invalidations e,
          )
    ]

-- Once an account is invalidated, what counts of the approvals given until then is what counted of
-- those of the other accounts.
pub still_valid-invalidate :
    (env : Env) (account : Name) (st st' : State) (apps : List Approval)
    → invalidate env account st ≡ ok st'
    → GivenBy env.now apps
    → still_valid env st' apps ≡ still_valid env st (without account apps)
unfolding still_valid
still_valid-invalidate env account st st' [] h g = refl
still_valid-invalidate env account st st' (a ∷ rest) h g = ground (
  arith,
  counts-invalidate env account st st' a h,
  still_valid-invalidate env account st st' rest h g.1,
)
