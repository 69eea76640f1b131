-- ===== src/System/Pay.antt =====
-- src_system/contracts/amax.system/src/producer_pay.cpp: the rewards of the producers of blocks, as
-- far as `onblock` counts them, their configuration, and their claims. Inline actions are collected
-- in the state.
pub mod Operations
pub mod Increments
pub mod Readiness
pub mod Blocks
pub mod Claims
pub mod Issues
pub mod Configurations
pub mod Runs
mod Tests
use amax_contracts.Common.{
  ℕ, ◌+◌, ◌-◌, ◌*◌, ◌/◌, Bool, true, false, not, ◌&&◌, ◌||◌, ◌==◌, ltb, leb, if◌then◌else◌, Option,
  none, some, List, [], ◌∷◌, Result, ok, ◌>>=◌, ◌>>◌, check, or_err,
}
use amax_contracts.Common.Int.{ℤ, pos, ◌-ℤ◌, ◌*ℤ◌, ◌/ℤ◌, ◌+ℤ◌, ltb_ℤ, leb_ℤ}
use amax_contracts.Chain.{Name, Symbol, Asset, asset, symbol_eq, Context, require_auth}
use amax_contracts.Chain.Table.{Table, find, modify_same, modify}

-- `struct producer_reward_info`
pub record RewardInfo : Type 0 where
  pub total_rewards : Asset
  pub rewards_per_block : Asset
  pub produced_rewards : Asset

-- What is read here of `struct producer_info`. Its extension, which old rows lack, has the part of
-- the rewards that is shared with voters, of 10000. Times are microseconds since the epoch.
pub record ProducerInfo : Type 0 where
  pub owner : Name
  pub is_active : Bool
  pub last_claimed_time : ℕ
  pub unclaimed_rewards : Asset
  pub reward_shared_ratio : Option ℕ

-- The inline actions: to the token contract, and to the contract that shares rewards.
pub data Sent : Type 0 where
  issued : Name → Asset → Sent
  transferred : Name → Name → Asset → Sent
  registered : Name → Sent

-- The slice of `amax_global_state` and `elect_global_state` and the producers. A time that is not
-- set is 0.
pub record State : Type 0 where
  pub thresh_activated_stake_time : ℕ
  pub init_reward_start_time : ℕ
  pub init_reward_end_time : ℕ
  pub elected_version : ℕ
  pub halving_period_num : ℕ
  pub main_reward_info : RewardInfo
  pub backup_reward_info : RewardInfo
  pub min_backup_reward_contribution : ℕ
  pub producers : Table ProducerInfo
  pub sent : List Sent

-- The chain, with the core symbol, the milliseconds of a block (a constant of the SDK), and who is
-- registered at the contract that shares rewards.
pub record Env : Type 0 where
  pub chain : Context
  pub open chain use *
  pub core_symbol : Symbol
  pub block_interval_ms : ℕ
  pub is_producer_registered : Name → Bool

-- The part of a block's header that is read: its producer, and, where backup producers are
-- enabled, its extension: whether the block is a backup itself, and the producer of the previous
-- backup block with its contribution.
pub record Block : Type 0 where
  pub producer : Name
  pub is_backup : Bool
  pub previous_backup : Option (Name × ℕ)

abbrev pub is_init : State → Bool
is_init st = ltb 0 st.elected_version

abbrev pub is_bbp_enabled : State → Bool
is_bbp_enabled st = leb 2 st.elected_version

-- 50000000.00000000 of the core symbol, for main and for backup producers.
abbrev pub total_producer_rewards : ℤ
total_producer_rewards = pos 5000000000000000

abbrev pub seconds_per_day : ℕ
seconds_per_day = 86400

abbrev pub reward_halving_period_seconds : ℕ
reward_halving_period_seconds = 5 * 31536000

abbrev pub ratio_boost : ℕ
ratio_boost = 10000

-- `calc_halving_rewards_per_block` of an amount, and of what is left of the rewards.
unfoldable pub halving_rewards : Env → ℤ → ℤ
halving_rewards env total =
    total /ℤ pos 2 /ℤ pos (reward_halving_period_seconds * 1000 / env.block_interval_ms)

unfoldable pub calc_halving_rewards_per_block : Env → RewardInfo → Result Asset
calc_halving_rewards_per_block env info = do
  over ← env.sdk.lt info.total_rewards info.produced_rewards
  check (not over) "reward_info.total_rewards >= reward_info.produced_rewards"
  let amount = info.total_rewards.amount -ℤ info.produced_rewards.amount
  env.sdk.make (halving_rewards env (if leb_ℤ (pos 0) amount then amount else pos 0))
      info.total_rewards.symbol

-- `update_reward_info`
unfoldable pub update_reward_info : Env → RewardInfo → Asset → Asset → Result RewardInfo
update_reward_info env info total_rewards rewards_per_block = do
  produced ←
      if env.sdk.asset_is_valid info.produced_rewards
      then ok info.produced_rewards
      else env.sdk.make (pos 0) total_rewards.symbol
  over ← env.sdk.lt total_rewards produced
  check (not over) "reward_info.total_rewards >= reward_info.produced_rewards"
  ok (record {
    total_rewards = total_rewards;
    rewards_per_block = rewards_per_block;
    produced_rewards = produced;
  })

-- What `inc_producer_rewards` changes.
pub record Rewarded : Type 0 where
  pub info : RewardInfo
  pub producers : Table ProducerInfo

-- The end of `inc_producer_rewards`, for a producer that has a row.
unfoldable pub inc_row :
    Env → Name → RewardInfo → Table ProducerInfo → ProducerInfo → Result Rewarded
inc_row env producer info rows p = do
  produced ← env.sdk.add info.produced_rewards info.rewards_per_block
  over ← env.sdk.lt info.total_rewards produced
  unclaimed ←
      if over
      then ok p.unclaimed_rewards
      else env.sdk.add p.unclaimed_rewards info.rewards_per_block
  ok (
      if over then record { info = info; producers = rows } else record {
        info = record info { produced_rewards = produced };
        producers = modify_same env.self producer (record p { unclaimed_rewards = unclaimed }) rows;
      })

abbrev inc_found :
    Env → Name → RewardInfo → Table ProducerInfo → Option ProducerInfo → Result Rewarded
inc_found env producer info rows none = ok (record { info = info; producers = rows })
inc_found env producer info rows (some p) = inc_row env producer info rows p

unfoldable pub inc_producer_rewards : Env → Name → RewardInfo → Table ProducerInfo → Result Rewarded
inc_producer_rewards env producer info rows =
    if leb_ℤ info.rewards_per_block.amount (pos 0)
    then ok (record { info = info; producers = rows })
    else inc_found env producer info rows (find env.self producer rows)

-- `multiply_decimal64`: a product over a precision, to the nearest integer.
unfoldable pub multiply_decimal64 : ℤ → ℤ → ℤ → Result ℤ
multiply_decimal64 a b precision = do
  let tmp = pos 10 *ℤ a *ℤ b /ℤ precision
  check (leb_ℤ (pos 0 -ℤ pos 0x8000000000000000) tmp && leb_ℤ tmp (pos 0x7fffffffffffffff))
      "overflow exception of multiply_decimal"
  ok ((tmp +ℤ pos 5) /ℤ pos 10)
