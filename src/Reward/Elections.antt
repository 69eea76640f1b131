-- ===== src/Reward/Elections.antt =====
-- The votes of amax.reward over any run, and what a vote for producers leaves.
use amax_contracts.Common.{
  ◌≡◌, refl, true, false, ◌&&◌, ◌==◌, not, some, List, arith, ok, with_ok, Bool-cases, inl, inr,
}
use amax_contracts.Chain.{Name, Asset, IsSdk, symbol_eq}
use amax_contracts.Chain.Names
use amax_contracts.Chain.Table.{find}
use amax_contracts.Reward.{
  vote_asset_0, Voter, State, Env, new_voter, set_row_paid, row_or, allocate,
}
use amax_contracts.Reward.Merge.{compare_votes, emplace_all}
use amax_contracts.Reward.Operations.{
  voteproducer, claimrewards, claimfor, ontransfer, Action, registers, adds, subtracts, votes_for,
  claims, claims_for, receives, apply,
}
use amax_contracts.Reward.Rows.{find-set_row_paid}
use amax_contracts.Reward.Weights.{
  names, compare_votes-Weave, names-emplace_all, is_sorted-Ascending,
}
use amax_contracts.Reward.Runs.{Reach, start, next}
use amax_contracts.Reward.Ballots.{names-allocate}
use amax_contracts.Reward.Tallies.{
  IsTallied, voter_of, change_vote-IsTallied, voteproducer-IsTallied, pay_rewards-IsTallied,
  regproducer-IsTallied, add_rewards-IsTallied,
}

ontransfer-IsTallied :
    (env : Env) (from to : Name) (q : Asset) (st st' : State)
    → ontransfer env from to q st ≡ ok st'
    → IsTallied env.self st
    → IsTallied env.self st'
unfolding ontransfer
ontransfer-IsTallied env from to q st st' h s =
    elim (Bool-cases (
      env.first_receiver == Names.amax_token
      && symbol_eq q.symbol env.core_symbol
      && not (from == env.self)
      && to == env.self)) [
        | inl e ↦ add_rewards-IsTallied env from q st st' (ground arith) s
        | inr e ↦ let same : st' ≡ st = ground arith in rw same s
      ]

apply-IsTallied :
    (env : Env) (a : Action) (st st' : State)
    → IsSdk env.sdk
    → apply env a st ≡ ok st'
    → IsTallied env.self st
    → IsTallied env.self st'
unfolding apply claimrewards claimfor
apply-IsTallied env (registers producer) st st' laws h s =
    regproducer-IsTallied env producer st st' h s
apply-IsTallied env (adds voter votes) st st' laws h s =
    change_vote-IsTallied env voter votes true st st' laws h s
apply-IsTallied env (subtracts voter votes) st st' laws h s =
    change_vote-IsTallied env voter votes false st st' laws h s
apply-IsTallied env (votes_for voter producers) st st' laws h s =
    voteproducer-IsTallied env voter producers st st' laws h s
apply-IsTallied env (claims voter) st st' laws h s =
    pay_rewards-IsTallied env voter st st' laws (ground arith) s
apply-IsTallied env (claims_for submitter voter) st st' laws h s =
    pay_rewards-IsTallied env voter st st' laws (ground arith) s
apply-IsTallied env (receives from to q) st st' laws h s =
    ontransfer-IsTallied env from to q st st' h s

-- Over any run, the votes of each producer, which are none without a row, are the sum of the votes
-- of all voters who have it in their maps; and each voter's map is in ascending order.
pub Reach-IsTallied : (self : Name) {st : State} → Reach self st → IsTallied self st
Reach-IsTallied self (start core) = record { tally = λ k. refl; ordered = tt }
Reach-IsTallied self (next env a {st} {st'} r here laws h) =
    let before : IsTallied env.self st = rw here (Reach-IsTallied self r) in
    rw (← here) (apply-IsTallied env a st st' laws h before)

-- A vote for producers that goes through was made by the voter with the system contract. After it
-- the voter's row holds exactly the given producers, and the votes and the claimed rewards that it
-- held before.
pub voteproducer-names :
    (env : Env) (voter : Name) (producers : List Name) (st st' : State)
    → voteproducer env voter producers st ≡ ok st'
    → (env.has_auth voter ≡ true)
      × (env.has_auth Names.amax ≡ true)
      × ((row : Voter) × (find env.self voter st'.voters ≡ some row)
          × (names row.producers ≡ producers)
          × (row.votes ≡ (row_or (find env.self voter st.voters) (new_voter env voter)).votes)
          × (row.claimed_rewards
              ≡ (row_or (find env.self voter st.voters) (new_voter env voter)).claimed_rewards))
unfolding voteproducer
voteproducer-names env voter producers st st' h =
    let v = voter_of env voter st in
    let changes = compare_votes v.producers producers in
    let minus = env.sdk.neg v.votes in
    with_ok (allocate env v.votes minus voter changes.removed st.producers v.unclaimed_rewards)
      (λ m q. ground arith)
      λ a ea.
        with_ok (allocate env v.votes vote_asset_0 voter changes.kept a.producers a.allocated)
          (λ m q. ground arith)
          λ b eb.
            with_ok (allocate env vote_asset_0 v.votes voter changes.added b.producers b.allocated)
              (λ m q. ground arith)
              λ c ec.
                let row : Voter = record v {
                  producers = emplace_all c.voted b.voted;
                  unclaimed_rewards = c.allocated;
                  update_at = env.block_time;
                } in
                with_ok
                  (set_row_paid (find env.self voter st.voters) env.self voter voter row st.voters)
                  (λ m q. ground arith)
                  λ voters e.
                    let table : st'.voters ≡ voters = ground arith in
                    let found =
                      find-set_row_paid env.self voter voter env.self voter row st.voters voters
                        e in
                    (
                      ground arith,
                      ground arith,
                      (
                        row,
                        rw table (ground arith),
                        names-emplace_all (compare_votes-Weave v.producers producers)
                            (is_sorted-Ascending producers (ground arith)) c.voted b.voted
                            (names-allocate env vote_asset_0 v.votes voter changes.added b.producers
                              b.allocated c ec)
                            (names-allocate env v.votes vote_asset_0 voter changes.kept a.producers
                              a.allocated b eb),
                        refl,
                        refl,
                      ),
                    )
