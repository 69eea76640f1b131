-- ===== src/System/Pay/Operations.antt =====
-- The actions of producer_pay.cpp, and the rewards of `onblock`.
use amax_contracts.Common.{
  ℕ, ◌+◌, ◌-◌, ◌/◌, ◌%◌, ◌^◌, Bool, true, false, not, ◌&&◌, ◌||◌, ◌==◌, ltb, leb, if◌then◌else◌,
  Option, none, some, List, [], ◌∷◌, ◌++◌, Result, ok, ◌>>=◌, ◌>>◌, check, or_err,
}
use amax_contracts.Common.Int.{pos, ltb_ℤ, leb_ℤ}
use amax_contracts.Chain.{Name, Asset, asset, symbol_eq, require_auth}
use amax_contracts.Chain.Names
use amax_contracts.Chain.Table.{find, modify_same, modify}
use amax_contracts.System.Pay.{
  RewardInfo, Sent, issued, transferred, registered, State, Env, Block, is_init, is_bbp_enabled,
  total_producer_rewards, seconds_per_day, reward_halving_period_seconds, ratio_boost,
  halving_rewards, calc_halving_rewards_per_block, update_reward_info, inc_producer_rewards,
  multiply_decimal64,
}

-- The number of the halving period that the current time is in, after the initial phase.
abbrev pub period_at : Env → State → ℕ
period_at env st = 1 + (env.now - st.init_reward_end_time) / 1000000 / reward_halving_period_seconds

abbrev pub halve_backup : Env → RewardInfo → Bool → Result RewardInfo
halve_backup env info false = ok info
halve_backup env info true = do
  per_block ← calc_halving_rewards_per_block env info
  ok (record info { rewards_per_block = per_block })

-- In a new period the rewards per block are set again.
unfoldable pub halve_now : Env → State → Result State
halve_now env st = do
  main ← calc_halving_rewards_per_block env st.main_reward_info
  backup ← halve_backup env st.backup_reward_info (is_bbp_enabled st)
  ok (record st {
    halving_period_num = period_at env st;
    main_reward_info = record st.main_reward_info { rewards_per_block = main };
    backup_reward_info = backup;
  })

unfoldable pub halve : Env → State → Result State
halve env st = do
  check (leb st.halving_period_num (period_at env st)) "cur_period_num >= halving_period_num"
  if ltb st.halving_period_num (period_at env st) then halve_now env st else ok st

unfoldable pub inc_main : Env → Name → State → Result State
inc_main env producer st = do
  r ← inc_producer_rewards env producer st.main_reward_info st.producers
  ok (record st { main_reward_info = r.info; producers = r.producers })

unfoldable pub inc_backup : Env → Name → State → Result State
inc_backup env producer st = do
  r ← inc_producer_rewards env producer st.backup_reward_info st.producers
  ok (record st { backup_reward_info = r.info; producers = r.producers })

-- The producer of the previous backup block is rewarded if it contributed enough.
abbrev pub reward_backup : Env → Block → State → Option (Name × ℕ) → Result State
reward_backup env block st none = ok st
reward_backup env block st (some (producer, contribution)) =
    if not block.is_backup && leb st.min_backup_reward_contribution contribution
    then inc_backup env producer st
    else ok st

unfoldable pub reward_producers : Env → Block → State → Result State
reward_producers env block st = do
  halved ← if leb st.init_reward_end_time env.now then halve env st else ok st
  paid ← inc_main env block.producer halved
  if is_bbp_enabled paid && ltb_ℤ (pos 0) paid.backup_reward_info.rewards_per_block.amount
      then reward_backup env block paid block.previous_backup
      else ok paid

-- The rewards of `onblock`, once the election is initialized and the rewards have started.
unfoldable pub onblock_rewards : Env → Block → State → Result State
onblock_rewards env block st = do
  require_auth env.chain env.self
  if is_init st && not (st.init_reward_start_time == 0) && leb st.init_reward_start_time env.now
      then reward_producers env block st
      else ok st

unfoldable pub cfgreward : Env → ℕ → ℕ → Asset → Asset → State → Result State
cfgreward env start end main_per_block backup_per_block st = do
  require_auth env.chain env.self
  check (leb start end) "init_reward_end_time can not be less than init_reward_start_time"
  check
      (symbol_eq main_per_block.symbol env.core_symbol
        && symbol_eq backup_per_block.symbol env.core_symbol)
      "rewards symbol mismatch with core symbol"
  check (leb_ℤ (pos 0) main_per_block.amount && leb_ℤ (pos 0) backup_per_block.amount)
      "rewards can not be negative"
  check (st.init_reward_end_time == 0 || ltb env.now st.init_reward_end_time)
      "initializing reward phase has already ended"
  check
      (st.init_reward_start_time == 0
        || ltb env.now st.init_reward_start_time
        || start == st.init_reward_start_time)
      "can not change init_reward_start_time when initializing reward phase has already started"
  check (leb_ℤ main_per_block.amount (halving_rewards env total_producer_rewards))
      "main_rewards_per_block is larger than the most"
  check (leb_ℤ backup_per_block.amount (halving_rewards env total_producer_rewards))
      "backup_rewards_per_block is larger than the most"
  total ← env.sdk.make total_producer_rewards env.core_symbol
  main ← update_reward_info env st.main_reward_info total main_per_block
  backup ← update_reward_info env st.backup_reward_info total backup_per_block
  ok (record st {
    init_reward_start_time = start;
    init_reward_end_time = end;
    main_reward_info = main;
    backup_reward_info = backup;
  })

-- "amaxapplybps"
abbrev pub producer_admin : Name
producer_admin = 0x348dd356b1f1eb80

unfoldable pub cfgbbpreward : Env → Asset → State → Result State
cfgbbpreward env per_block st = do
  check (env.has_auth env.self || env.has_auth producer_admin) "missing authority"
  check (symbol_eq per_block.symbol env.core_symbol) "rewards symbol mismatch with core symbol"
  check (leb_ℤ (pos 0) per_block.amount) "rewards can not be negative"
  let info = st.backup_reward_info
  produced ←
      if env.sdk.asset_is_valid info.produced_rewards
      then ok info.produced_rewards
      else env.sdk.make (pos 0) env.core_symbol
  remaining ← env.sdk.sub info.total_rewards produced
  check (ltb_ℤ (pos 0) remaining.amount) "insufficent remaining rewards"
  lower ← env.sdk.lt per_block remaining
  check lower "backup_rewards_per_block must be lower than remaining rewards"
  ok (record st {
    backup_reward_info = record info { rewards_per_block = per_block; produced_rewards = produced };
  })

unfoldable pub cfgcontrib : Env → ℕ → State → Result State
cfgcontrib env contribution st = do
  require_auth env.chain env.self
  check (leb contribution 10000) "min_backup_reward_contribution out of range"
  ok (record st { min_backup_reward_contribution = contribution })

-- The inline actions that share a producer's rewards with its voters.
abbrev pub share_actions : Env → Name → Asset → List Sent
share_actions env owner shared =
    if ltb_ℤ (pos 0) shared.amount
    then (transferred owner Names.amax_reward shared
        ∷ (if env.is_producer_registered owner then [] else registered owner ∷ []))
    else []

-- `time_point::sec_since_epoch`, of 32 bits.
abbrev pub sec_since_epoch : ℕ → ℕ
sec_since_epoch t = t / 1000000 % 2 ^ 32

-- The newest action stands first.
unfoldable pub claimrewards : Env → Name → Name → State → Result State
claimrewards env submitter owner st = do
  require_auth env.chain submitter
  prod ← or_err (find env.self owner st.producers) "unable to find key"
  check prod.is_active "producer does not have an active key"
  ratio ← or_err prod.reward_shared_ratio "producer not set yet thru regproducer"
  check (is_init st) "election is not initialized"
  check (ltb_ℤ (pos 0) prod.unclaimed_rewards.amount) "There are no more rewards to claim"
  let elapsed = (sec_since_epoch env.now + 2 ^ 32 - sec_since_epoch prod.last_claimed_time) % 2 ^ 32
  check (leb (seconds_per_day - 1800) elapsed) "Claim after a day"
  check (leb ratio ratio_boost) "prod.ext->reward_shared_ratio <= ratio_boost"
  shared_amount ← multiply_decimal64 prod.unclaimed_rewards.amount (pos ratio) (pos ratio_boost)
  check (leb_ℤ (pos 0) shared_amount && leb_ℤ shared_amount prod.unclaimed_rewards.amount)
      "shared_amount >= 0 && prod.unclaimed_rewards.amount >= shared_amount"
  shared ←
      if ltb_ℤ (pos 0) shared_amount
      then env.sdk.make shared_amount prod.unclaimed_rewards.symbol
      else ok (asset shared_amount prod.unclaimed_rewards.symbol)
  let cleared = asset (pos 0) prod.unclaimed_rewards.symbol
  ok (record st {
    producers =
        modify_same env.self owner
          (record prod { unclaimed_rewards = cleared; last_claimed_time = env.now }) st.producers;
    sent =
        share_actions env owner shared
        ++ transferred env.self prod.owner prod.unclaimed_rewards
          ∷ issued env.self prod.unclaimed_rewards
          ∷ st.sent;
  })

unfoldable pub undoreward : Env → Name → Asset → State → Result State
undoreward env owner rewards st = do
  require_auth env.chain owner
  prod ← or_err (find env.self owner st.producers) "unable to find key"
  check prod.is_active "producer does not have an active key"
  check (is_init st) "election hasnot been initialized"
  ratio ← or_err prod.reward_shared_ratio "producer is not updated by regproducer"
  check (ltb_ℤ (pos 0) rewards.amount) "rewards must be positive"
  few ← env.sdk.lt prod.unclaimed_rewards rewards
  check (not few) "insufficient unclaimed rewards"
  left ← env.sdk.sub prod.unclaimed_rewards rewards
  ok (record st {
    producers =
        modify env.self owner owner
          (record prod { unclaimed_rewards = left; last_claimed_time = env.now }) st.producers;
  })

-- The actions of the file; a block is the action `onblock`.
pub data Action : Type 0 where
  blocks : Block → Action
  configures : ℕ → ℕ → Asset → Asset → Action
  configures_backup : Asset → Action
  configures_contribution : ℕ → Action
  claims : Name → Name → Action
  undoes : Name → Asset → Action

unfoldable pub apply : Env → Action → State → Result State
apply env (blocks b) st = onblock_rewards env b st
apply env (configures start end main backup) st = cfgreward env start end main backup st
apply env (configures_backup per_block) st = cfgbbpreward env per_block st
apply env (configures_contribution c) st = cfgcontrib env c st
apply env (claims submitter owner) st = claimrewards env submitter owner st
apply env (undoes owner rewards) st = undoreward env owner rewards st
