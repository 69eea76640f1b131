-- ===== src/System/Pay/Readiness.antt =====
-- The rewards of producer_pay.cpp are unset until they are configured first: `update_reward_info`
-- tells the two apart by whether the produced rewards are a valid asset.
pub mod Rewards
use native.Mathlib.Nat.{zero-div}
use amax_contracts.Common.{
  ℕ, ◌*◌, ◌/◌, ◌≡◌, refl, ap, ◌∙◌, true, ◌⊎◌, inl, inr, Option, none, some, if◌then◌else◌, ◌&&◌,
  ◌==◌, not, ltb, leb, arith, ok, with_ok, Bool-cases, Option-cases,
}
use amax_contracts.Common.Int.{pos, ◌-ℤ◌, ltb_ℤ, leb_ℤ, int_laws}
use amax_contracts.Chain.{Name, Asset, Sdk, IsSdk}
use amax_contracts.Chain.Table.{Table, find}
use amax_contracts.Safe.Products.{div_pp}
use amax_contracts.System.Pay.{
  RewardInfo, ProducerInfo, State, Env, Block, Rewarded, is_init, is_bbp_enabled, halving_rewards,
  reward_halving_period_seconds, calc_halving_rewards_per_block, inc_row, inc_producer_rewards,
}
use amax_contracts.System.Pay.Operations.{
  period_at, halve_now, halve, inc_main, inc_backup, reward_backup, reward_producers,
  onblock_rewards,
}

-- No amount is set.
abbrev pub Unset : RewardInfo → Type 0
Unset info =
    (info.total_rewards.amount ≡ pos 0)
    × (info.rewards_per_block.amount ≡ pos 0)
    × (info.produced_rewards.amount ≡ pos 0)

-- The rewards were configured before, or are unset.
abbrev pub IsReady : Sdk → RewardInfo → Type 0
IsReady sdk info = (sdk.asset_is_valid info.produced_rewards ≡ true) ⊎ Unset info

pub record AreReady (sdk : Sdk) (st : State) : Type 0 where
  pub main : IsReady sdk st.main_reward_info
  pub backup : IsReady sdk st.backup_reward_info

inc_row-IsReady :
    (env : Env) (n : Name) (info : RewardInfo) (rows : Table ProducerInfo) (p : ProducerInfo)
    (r : Rewarded)
    → IsSdk env.sdk
    → ltb_ℤ (pos 0) info.rewards_per_block.amount ≡ true
    → inc_row env n info rows p ≡ ok r
    → IsReady env.sdk info
    → IsReady env.sdk r.info
unfolding inc_row
inc_row-IsReady env n info rows p r laws some_ h (inr unset) = absurd (ground arith)
inc_row-IsReady env n info rows p r laws some_ h (inl valid) =
    with_ok (env.sdk.add info.produced_rewards info.rewards_per_block) (λ m q. ground arith)
      λ produced a.
        with_ok (env.sdk.lt info.total_rewards produced) (λ m q. ground arith)
          λ over b. elim (Bool-cases over) [
            | inl c ↦ let same : r.info ≡ info = ground arith in rw same (inl valid)
            | inr c ↦
                with_ok (env.sdk.add p.unclaimed_rewards info.rewards_per_block)
                  (λ m q. ground arith)
                  λ unclaimed d.
                    let final : r.info ≡ record info { produced_rewards = produced } =
                      ground arith in
                    let summed = laws.add_lem info.produced_rewards info.rewards_per_block in
                    let valid_symbol = laws.valid_symbol info.produced_rewards valid in
                    let valid_sum = laws.valid_lem produced (ground arith) (ground arith) in
                    rw final (inl valid_sum)
          ]

pub inc-IsReady :
    (env : Env) (n : Name) (info : RewardInfo) (rows : Table ProducerInfo) (r : Rewarded)
    → IsSdk env.sdk
    → inc_producer_rewards env n info rows ≡ ok r
    → IsReady env.sdk info
    → IsReady env.sdk r.info
unfolding inc_producer_rewards
inc-IsReady env n info rows r laws h ready =
    elim (Bool-cases (leb_ℤ info.rewards_per_block.amount (pos 0))) [
      | inl a ↦ let same : r.info ≡ info = ground arith in rw same ready
      | inr a ↦ elim (Option-cases (find env.self n rows)) [
        | inl f ↦ let same : r.info ≡ info = ground arith in rw same ready
        | inr (p, f) ↦ inc_row-IsReady env n info rows p r laws (ground arith) (ground arith) ready
      ]
    ]

halving_rewards_zero : (env : Env) → halving_rewards env (pos 0) ≡ pos 0
unfolding halving_rewards
halving_rewards_zero env =
    let k = reward_halving_period_seconds * 1000 / env.block_interval_ms in
    rw (div_pp 0 2) (rw (div_pp (0 / 2) k) (rw (zero-div k) refl))

-- Of what is unset, nothing is the rate.
pub halved-IsReady :
    (env : Env) (info : RewardInfo) (rate : Asset)
    → IsSdk env.sdk
    → calc_halving_rewards_per_block env info ≡ ok rate
    → IsReady env.sdk info
    → IsReady env.sdk (record info { rewards_per_block = rate })
unfolding calc_halving_rewards_per_block
halved-IsReady env info rate laws h (inl valid) = inl valid
halved-IsReady env info rate laws h (inr (total, per_block, produced)) =
    with_ok (env.sdk.lt info.total_rewards info.produced_rewards) (λ m q. ground arith)
      λ over a.
        let left = info.total_rewards.amount -ℤ info.produced_rewards.amount in
        let nothing_left : left ≡ pos 0 = rw total (rw produced (omega int_laws)) in
        let remaining = if leb_ℤ (pos 0) left then left else pos 0 in
        let nothing : remaining ≡ pos 0 = rw nothing_left refl in
        let made = laws.make_lem (halving_rewards env remaining) info.total_rewards.symbol in
        let amount : rate.amount ≡ halving_rewards env remaining = ground arith in
        inr (total, amount ∙ ap (halving_rewards env) nothing ∙ halving_rewards_zero env, produced)
