-- ===== src/System/Pay/Configurations.antt =====
-- How producer_pay.cpp configures rewards: the first time, which sets what is produced to nothing,
-- and again, which keeps it.
use amax_contracts.Common.{
  ◌≡◌, refl, true, inl, inr, ℕ, if◌then◌else◌, sym, arith, Result, ok, with_ok, Bool-cases,
}
use amax_contracts.Common.Int.{pos, ◌≤ℤ◌}
use amax_contracts.Chain.{Name, Asset, asset, Sdk, IsSdk}
use amax_contracts.System.Pay.{RewardInfo, State, Env, update_reward_info}
use amax_contracts.System.Pay.Operations.{
  cfgreward, cfgbbpreward, cfgcontrib, claimrewards, undoreward,
}
use amax_contracts.System.Pay.Increments.{Within}
use amax_contracts.System.Pay.Claims.{claimrewards-sharing}
use amax_contracts.System.Pay.Issues.{IsCovered}
use amax_contracts.System.Pay.Readiness.{IsReady, AreReady}

-- A configuration makes the rewards ready, and moves nothing.
record Configured (sdk : Sdk) (info r : RewardInfo) : Type 0 where
  same_amount : r.produced_rewards.amount ≡ info.produced_rewards.amount
  within : Within r
  valid : sdk.asset_is_valid r.produced_rewards ≡ true

-- The produced rewards that a configuration starts from.
abbrev produced_before : Env → RewardInfo → Asset → Result Asset
produced_before env info t =
    if env.sdk.asset_is_valid info.produced_rewards
    then ok info.produced_rewards
    else env.sdk.make (pos 0) t.symbol

produced_before-IsReady :
    (env : Env) (info : RewardInfo) (t produced : Asset)
    → IsSdk env.sdk
    → IsReady env.sdk info
    → produced_before env info t ≡ ok produced
    → (produced.amount ≡ info.produced_rewards.amount) × (env.sdk.asset_is_valid produced ≡ true)
produced_before-IsReady env info t produced laws (inl valid) h =
    let same : produced ≡ info.produced_rewards = ground arith in rw same (refl, valid)
produced_before-IsReady env info t produced laws (inr (total, per_block, none)) h =
    elim (Bool-cases (env.sdk.asset_is_valid info.produced_rewards)) [
      | inl valid ↦
          let same : produced ≡ info.produced_rewards = ground arith in rw same (refl, valid)
      | inr set ↦
          let made = laws.make_lem (pos 0) t.symbol in
          let final : produced ≡ asset (pos 0) t.symbol = ground arith in
          let valid : env.sdk.asset_is_valid (asset (pos 0) t.symbol) ≡ true =
            laws.valid_lem (asset (pos 0) t.symbol) (ground arith) (ground arith) in
          rw final (sym none, valid)
    ]

update_reward_info-Configured :
    (env : Env) (info r : RewardInfo) (t per_block : Asset)
    → IsSdk env.sdk
    → IsReady env.sdk info
    → update_reward_info env info t per_block ≡ ok r
    → Configured env.sdk info r
unfolding update_reward_info
update_reward_info-Configured env info r t per_block laws ready h =
    with_ok (produced_before env info t) (λ m q. ground arith)
      λ produced a.
        with_ok (env.sdk.lt t produced) (λ m q. ground arith)
          λ over b.
            let compared = laws.lt_lem t produced in
            let final : r ≡ record {
              total_rewards = t;
              rewards_per_block = per_block;
              produced_rewards = produced;
            } =
              ground arith in
            let below : produced.amount ≤ℤ t.amount = ground arith in
            let (same, valid) = produced_before-IsReady env info t produced laws ready a in
            rw final (record { same_amount = same; within = below; valid = valid })

pub cfgreward-IsCovered :
    (env : Env) (start end : ℕ) (per_main per_backup : Asset) (st st' : State)
    → IsSdk env.sdk
    → AreReady env.sdk st
    → cfgreward env start end per_main per_backup st ≡ ok st'
    → IsCovered st
    → IsCovered st' × AreReady env.sdk st'
unfolding cfgreward
cfgreward-IsCovered env start end per_main per_backup st st' laws ready h c =
    with_ok (env.sdk.make (pos 5000000000000000) env.core_symbol) (λ m q. ground arith)
      λ t a.
        with_ok (update_reward_info env st.main_reward_info t per_main) (λ m q. ground arith)
          λ main b.
            with_ok (update_reward_info env st.backup_reward_info t per_backup)
              (λ m q. ground arith)
              λ backup d.
                let result : st' ≡ record st {
                  init_reward_start_time = start;
                  init_reward_end_time = end;
                  main_reward_info = main;
                  backup_reward_info = backup;
                } =
                  ground arith in
                let on_main =
                  update_reward_info-Configured env st.main_reward_info main t per_main laws
                    ready.main b in
                let on_backup =
                  update_reward_info-Configured env st.backup_reward_info backup t per_backup laws
                    ready.backup d in
                rw result (
                  record {
                    nonneg = c.nonneg;
                    main_within = on_main.within;
                    backup_within = on_backup.within;
                    covered = rw on_main.same_amount (rw on_backup.same_amount c.covered);
                  },
                  record { main = inl on_main.valid; backup = inl on_backup.valid },
                )

pub cfgbbpreward-IsCovered :
    (env : Env) (per_block : Asset) (st st' : State)
    → IsSdk env.sdk
    → AreReady env.sdk st
    → cfgbbpreward env per_block st ≡ ok st'
    → IsCovered st
    → IsCovered st' × AreReady env.sdk st'
unfolding cfgbbpreward
cfgbbpreward-IsCovered env per_block st st' laws ready h c =
    let info = st.backup_reward_info in
    with_ok (produced_before env info (asset (pos 0) env.core_symbol)) (λ m q. ground arith)
      λ produced k.
        with_ok (env.sdk.sub info.total_rewards produced) (λ m q. ground arith)
          λ remaining a.
            with_ok (env.sdk.lt per_block remaining) (λ m q. ground arith)
              λ lower b.
                let result : st' ≡ record st {
                  backup_reward_info = record info {
                    rewards_per_block = per_block;
                    produced_rewards = produced;
                  };
                } =
                  ground arith in
                let (same, valid) =
                  produced_before-IsReady env info (asset (pos 0) env.core_symbol) produced laws
                    ready.backup k in
                rw result (
                  record {
                    nonneg = c.nonneg;
                    main_within = c.main_within;
                    backup_within = rw same c.backup_within;
                    covered = rw same c.covered;
                  },
                  record { main = ready.main; backup = inl valid },
                )

-- The other actions leave the rewards' configuration.
same-AreReady :
    (sdk : Sdk) (st st' : State)
    → st'.main_reward_info ≡ st.main_reward_info
    → st'.backup_reward_info ≡ st.backup_reward_info
    → AreReady sdk st
    → AreReady sdk st'
same-AreReady sdk st st' m b ready = record { main = rw m ready.main; backup = rw b ready.backup }

pub cfgcontrib-AreReady :
    (env : Env) (contribution : ℕ) (st st' : State)
    → cfgcontrib env contribution st ≡ ok st'
    → AreReady env.sdk st
    → AreReady env.sdk st'
unfolding cfgcontrib
cfgcontrib-AreReady env contribution st st' h ready =
    let result : st' ≡ record st { min_backup_reward_contribution = contribution } = ground arith in
    same-AreReady env.sdk st st' (rw result refl) (rw result refl) ready

pub claimrewards-AreReady :
    (env : Env) (submitter owner : Name) (st st' : State)
    → IsSdk env.sdk
    → claimrewards env submitter owner st ≡ ok st'
    → AreReady env.sdk st
    → AreReady env.sdk st'
claimrewards-AreReady env submitter owner st st' laws h ready =
    let (p, u, ratio, f, active, amount, shared, above, late, part, result) =
      claimrewards-sharing env submitter owner st st' laws h in
    same-AreReady env.sdk st st' (rw result refl) (rw result refl) ready

pub undoreward-AreReady :
    (env : Env) (owner : Name) (rewards : Asset) (st st' : State)
    → undoreward env owner rewards st ≡ ok st'
    → AreReady env.sdk st
    → AreReady env.sdk st'
unfolding undoreward
undoreward-AreReady env owner rewards st st' h ready =
    same-AreReady env.sdk st st' (ground arith) (ground arith) ready
