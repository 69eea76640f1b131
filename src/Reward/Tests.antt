-- ===== src/Reward/Tests.antt =====
-- A run of amax.reward: producer 5 registers, voter 1 gets votes and votes for 5, and claims a
-- reward that 5 sends.
use amax_contracts.Common.{
  ◌+◌, ◌*◌, ◌/◌, ◌^◌, ◌≤◌, ◌<◌, ◌≡◌, refl, true, some, [], ◌∷◌, arith, Result, ok, err,
}
use amax_contracts.Common.Int.{pos, ◌+ℤ◌, ◌-ℤ◌, ◌*ℤ◌, ◌/ℤ◌}
use amax_contracts.Chain.{Symbol, Asset, asset}
use amax_contracts.Chain.Names
use amax_contracts.Chain.Sample.{signed_by, sdk-IsSdk}
use amax_contracts.Chain.Table.{find}
use amax_contracts.Reward.{
  vote_symbol, Voter, State, Env, new_voter, row_or, to_int128, calc_rewards_per_vote,
  calc_voter_rewards, move_rewards, share_rewards, allot, allocate,
}
use amax_contracts.Reward.Merge.{compare_votes, map_emplace, emplace_all, is_sorted}
use amax_contracts.Reward.Operations.{
  regproducer, votes_delta, change_vote, voteproducer, pay_rewards, claimrewards, add_rewards,
  ontransfer, Action, registers, adds, votes_for, claims, receives, apply,
}
use amax_contracts.Reward.Solvency.{IsSolvent, paid}
use amax_contracts.Reward.Runs.{Reach, start, next, deployed, Reach-IsSolvent}
use amax_contracts.Reward.Weights.{names}
use amax_contracts.Reward.Tallies.{IsTallied}
use amax_contracts.Reward.Elections.{Reach-IsTallied, voteproducer-names}
use amax_contracts.Reward.Limits.{rise_of, reward-le}

abbrev core : Symbol
core = record { code = 77; precision = 8 }

abbrev env : Env
env = record {
  chain = record (signed_by 50 (1 ∷ 5 ∷ Names.amax ∷ []) 0) { first_receiver = Names.amax_token };
  core_symbol = core;
  block_time = 9;
}

abbrev value_of : Result State → State
value_of (ok st) = st
value_of (err _) = deployed core

abbrev then_ : Action → State → State
then_ a st = value_of (apply env a st)

abbrev votes : Asset
votes = asset (pos 300) vote_symbol

abbrev reward : Asset
reward = asset (pos 1000) core

abbrev s1 : State
s1 = then_ (registers 5) (deployed core)

registered : apply env (registers 5) (deployed core) ≡ ok s1
unfolding apply regproducer change_vote votes_delta voteproducer ontransfer add_rewards claimrewards
    pay_rewards allocate allot share_rewards move_rewards calc_rewards_per_vote calc_voter_rewards
    to_int128 compare_votes emplace_all map_emplace is_sorted ◌+ℤ◌ ◌-ℤ◌ ◌*ℤ◌ ◌/ℤ◌
registered = refl

abbrev s2 : State
s2 = then_ (adds 1 votes) s1

empowered : apply env (adds 1 votes) s1 ≡ ok s2
unfolding apply regproducer change_vote votes_delta voteproducer ontransfer add_rewards claimrewards
    pay_rewards allocate allot share_rewards move_rewards calc_rewards_per_vote calc_voter_rewards
    to_int128 compare_votes emplace_all map_emplace is_sorted ◌+ℤ◌ ◌-ℤ◌ ◌*ℤ◌ ◌/ℤ◌
empowered = refl

abbrev s3 : State
s3 = then_ (votes_for 1 (5 ∷ [])) s2

voted : apply env (votes_for 1 (5 ∷ [])) s2 ≡ ok s3
unfolding apply regproducer change_vote votes_delta voteproducer ontransfer add_rewards claimrewards
    pay_rewards allocate allot share_rewards move_rewards calc_rewards_per_vote calc_voter_rewards
    to_int128 compare_votes emplace_all map_emplace is_sorted ◌+ℤ◌ ◌-ℤ◌ ◌*ℤ◌ ◌/ℤ◌
voted = refl

abbrev s4 : State
s4 = then_ (receives 5 50 reward) s3

received : apply env (receives 5 50 reward) s3 ≡ ok s4
unfolding apply regproducer change_vote votes_delta voteproducer ontransfer add_rewards claimrewards
    pay_rewards allocate allot share_rewards move_rewards calc_rewards_per_vote calc_voter_rewards
    to_int128 compare_votes emplace_all map_emplace is_sorted ◌+ℤ◌ ◌-ℤ◌ ◌*ℤ◌ ◌/ℤ◌
received = refl

abbrev s5 : State
s5 = then_ (claims 1) s4

claimed : apply env (claims 1) s4 ≡ ok s5
unfolding apply regproducer change_vote votes_delta voteproducer ontransfer add_rewards claimrewards
    pay_rewards allocate allot share_rewards move_rewards calc_rewards_per_vote calc_voter_rewards
    to_int128 compare_votes emplace_all map_emplace is_sorted ◌+ℤ◌ ◌-ℤ◌ ◌*ℤ◌ ◌/ℤ◌
claimed = refl

pays_all : paid s5 ≡ pos 999
unfolding apply regproducer change_vote votes_delta voteproducer ontransfer add_rewards claimrewards
    pay_rewards allocate allot share_rewards move_rewards calc_rewards_per_vote calc_voter_rewards
    to_int128 compare_votes emplace_all map_emplace is_sorted ◌+ℤ◌ ◌-ℤ◌ ◌*ℤ◌ ◌/ℤ◌
pays_all = refl

rate_runs : calc_rewards_per_vote (pos 0) reward votes ≡ ok (pos 3333333333333333333)
unfolding calc_rewards_per_vote to_int128 ◌+ℤ◌ ◌*ℤ◌ ◌/ℤ◌
rate_runs = refl

reward_runs :
    calc_voter_rewards env (asset (pos 100) vote_symbol) (pos 3333333333333333333 -ℤ pos 0)
    ≡ ok (asset (pos 333) core)
unfolding calc_voter_rewards to_int128 ◌-ℤ◌ ◌*ℤ◌ ◌/ℤ◌
reward_runs = refl

run : Reach 50 s5
run =
    next env (claims 1)
      (next env (receives 5 50 reward)
        (next env (votes_for 1 (5 ∷ []))
          (next env (adds 1 votes) (next env (registers 5) (start core) refl sdk-IsSdk registered)
            refl sdk-IsSdk empowered)
          refl sdk-IsSdk voted)
        refl sdk-IsSdk received)
      refl sdk-IsSdk claimed

Reach-IsSolvent_example : IsSolvent s5
Reach-IsSolvent_example = Reach-IsSolvent 50 run

Reach-IsTallied_example : IsTallied 50 s5
Reach-IsTallied_example = Reach-IsTallied 50 run

voteproducer-names_example :
    (env.has_auth 1 ≡ true)
    × (env.has_auth Names.amax ≡ true)
    × ((row : Voter) × (find 50 1 s3.voters ≡ some row)
        × (names row.producers ≡ 5 ∷ [])
        × (row.votes ≡ (row_or (find 50 1 s2.voters) (new_voter env 1)).votes)
        × (row.claimed_rewards ≡ (row_or (find 50 1 s2.voters) (new_voter env 1)).claimed_rewards))
unfolding apply
voteproducer-names_example = voteproducer-names env 1 (5 ∷ []) s2 s3 voted

reward-le_example :
    (pos 3333333333333333333 ≡ pos (0 + rise_of 1000 300))
    × (asset (pos 333) core ≡ asset (pos (100 * rise_of 1000 300 / 1000000000000000000)) core)
    × (1000 * 1000000000000000000 < 2 ^ 127)
    × (0 + rise_of 1000 300 < 2 ^ 127)
    × (100 * rise_of 1000 300 < 2 ^ 127)
    × (100 * rise_of 1000 300 / 1000000000000000000 * 300 ≤ 100 * 1000)
    × (100 * rise_of 1000 300 / 1000000000000000000 ≤ 1000)
reward-le_example =
    reward-le env 1000 300 100 0 core vote_symbol (pos 3333333333333333333) (asset (pos 333) core)
      sdk-IsSdk (omega arith) (omega arith) (omega arith) (omega arith) (omega arith) rate_runs
      reward_runs
