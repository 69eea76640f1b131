-- ===== src/System/Pay/Tests.antt =====
-- The rewards are configured; producer 5 makes a block, is rewarded with 1000 units, and claims them
-- a day later; a fifth of them goes on to its voters.
use amax_contracts.Common.{
  ℕ, ◌<◌, ◌≤◌, ◌≡◌, refl, true, false, some, none, inr, [], ◌∷◌, Result, ok, err,
}
use amax_contracts.Common.Int.{pos, ◌+ℤ◌, ◌-ℤ◌, ◌*ℤ◌, ◌/ℤ◌, ◌≤ℤ◌, int_laws}
use amax_contracts.Chain.{Symbol, Asset, asset}
use amax_contracts.Chain.Sample.{signed_by, sdk-IsSdk}
use amax_contracts.Chain.Table.{find, modify_same}
use amax_contracts.System.Pay.{
  RewardInfo, ProducerInfo, State, Env, inc_row, inc_producer_rewards, multiply_decimal64,
  update_reward_info, halving_rewards,
}
use amax_contracts.System.Pay.Operations.{
  halve, halve_now, inc_main, reward_producers, onblock_rewards, claimrewards, cfgreward,
  configures, Action, blocks, claims, apply,
}
use amax_contracts.System.Pay.Blocks.{Produces, onblock_rewards-Produces}
use amax_contracts.System.Pay.Claims.{shared_part, elapsed, cleared, Pays, claimrewards-eq_claim}
use amax_contracts.System.Pay.Readiness.{AreReady}
use amax_contracts.System.Pay.Issues.{issued_sum, IsCovered}
use amax_contracts.System.Pay.Runs.{starts, acts, Reach-issued}

abbrev core : Symbol
core = record { code = 77; precision = 8 }

abbrev units : ℕ → Asset
units n = asset (pos n) core

abbrev env : Env
env = record {
  chain = signed_by 50 (50 ∷ 5 ∷ []) 100000000000;
  core_symbol = core;
  block_interval_ms = 1000;
  is_producer_registered = λ n. false;
}

abbrev no_asset : Asset
no_asset = asset (pos 0) (record { code = 0; precision = 0 })

abbrev no_rewards : RewardInfo
no_rewards = record {
  total_rewards = no_asset;
  rewards_per_block = no_asset;
  produced_rewards = no_asset;
}

abbrev producer : ProducerInfo
producer = record {
  owner = 5;
  is_active = true;
  last_claimed_time = 1000000;
  unclaimed_rewards = units 0;
  reward_shared_ratio = some 2000;
}

abbrev deployed : State
deployed = record {
  thresh_activated_stake_time = 1;
  init_reward_start_time = 0;
  init_reward_end_time = 0;
  elected_version = 2;
  halving_period_num = 0;
  main_reward_info = no_rewards;
  backup_reward_info = no_rewards;
  min_backup_reward_contribution = 0;
  producers = record { scope = 50; key = 5; payer = 5; row = producer } ∷ [];
  sent = [];
}

abbrev value_of : Result State → State
value_of (ok st) = st
value_of (err _) = deployed

abbrev set : Action
set = configures 5 200000000000 (units 1000) (units 1000)

abbrev fresh : State
fresh = value_of (apply env set deployed)

sets : apply env set deployed ≡ ok fresh
unfolding apply cfgreward update_reward_info halving_rewards ◌+ℤ◌ ◌-ℤ◌ ◌*ℤ◌ ◌/ℤ◌
sets = refl

abbrev made : Action
made = blocks (record { producer = 5; is_backup = false; previous_backup = none })

abbrev s1 : State
s1 = value_of (apply env made fresh)

makes : apply env made fresh ≡ ok s1
unfolding apply onblock_rewards reward_producers inc_main inc_producer_rewards inc_row halve
    halve_now ◌+ℤ◌ ◌-ℤ◌ cfgreward halving_rewards ◌/ℤ◌ update_reward_info
makes = refl

abbrev s2 : State
s2 = value_of (apply env (claims 5 5) s1)

claimed : apply env (claims 5 5) s1 ≡ ok s2
unfolding apply onblock_rewards reward_producers inc_main inc_producer_rewards inc_row halve
    halve_now claimrewards multiply_decimal64 ◌+ℤ◌ ◌-ℤ◌ ◌*ℤ◌ ◌/ℤ◌ cfgreward halving_rewards
    update_reward_info
claimed = refl

deployed-AreReady : AreReady env.sdk deployed
deployed-AreReady = record { main = inr (refl, refl, refl); backup = inr (refl, refl, refl) }

deployed-IsCovered : IsCovered deployed
unfolding ◌+ℤ◌
deployed-IsCovered = record {
  nonneg = (omega int_laws, refl, tt);
  main_within = omega int_laws;
  backup_within = omega int_laws;
  covered = omega int_laws;
}

Reach-issued_example :
    issued_sum s2.sent
    ≤ℤ s2.main_reward_info.total_rewards.amount +ℤ s2.backup_reward_info.total_rewards.amount
Reach-issued_example =
    Reach-issued env.sdk deployed s2 sdk-IsSdk
      (acts env (claims 5 5) s1 s2 refl
        (acts env made fresh s1 refl (acts env set deployed fresh refl starts sets) makes) claimed)
      deployed-AreReady deployed-IsCovered

onblock_rewards-Produces_example : Produces fresh s1
unfolding apply
onblock_rewards-Produces_example =
    onblock_rewards-Produces env
      (record { producer = 5; is_backup = false; previous_backup = none }) fresh s1 sdk-IsSdk makes

claimrewards-eq_claim_example :
    (p : ProducerInfo) × (u : ℕ) × (ratio : ℕ) × (find env.self 5 s1.producers ≡ some p)
    × (p.is_active ≡ true)
    × (p.unclaimed_rewards.amount ≡ pos u)
    × (p.reward_shared_ratio ≡ some ratio)
    × (0 < u)
    × (84600 ≤ elapsed env p)
    × (shared_part u ratio ≤ u)
    × Pays env 5 p (shared_part u ratio) s1.sent s2.sent
    × (s2 ≡ record s1 { producers = modify_same 50 5 (cleared env p) s1.producers; sent = s2.sent })
unfolding apply
claimrewards-eq_claim_example = claimrewards-eq_claim env 5 5 s1 s2 sdk-IsSdk claimed
