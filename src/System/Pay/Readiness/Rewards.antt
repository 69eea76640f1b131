-- ===== src/System/Pay/Readiness/Rewards.antt =====
-- The rewards of a block, in producer_pay.cpp: they are as ready after it as before.
use amax_contracts.Common.{
  ℕ, ◌≡◌, inl, inr, Option, none, some, if◌then◌else◌, ◌&&◌, ◌==◌, not, ltb, leb, arith, ok,
  with_ok, Bool-cases,
}
use amax_contracts.Common.Int.{pos, ltb_ℤ}
use amax_contracts.Chain.{Name, IsSdk}
use amax_contracts.System.Pay.{
  State, Env, Block, is_init, is_bbp_enabled, calc_halving_rewards_per_block, inc_producer_rewards,
}
use amax_contracts.System.Pay.Operations.{
  period_at, halve_now, halve, inc_main, inc_backup, reward_backup, reward_producers,
  onblock_rewards,
}
use amax_contracts.System.Pay.Readiness.{AreReady, inc-IsReady, halved-IsReady}

inc_main-AreReady :
    (env : Env) (n : Name) (st st' : State)
    → IsSdk env.sdk
    → inc_main env n st ≡ ok st'
    → AreReady env.sdk st
    → AreReady env.sdk st'
unfolding inc_main
inc_main-AreReady env n st st' laws h ready =
    with_ok (inc_producer_rewards env n st.main_reward_info st.producers) (λ m q. ground arith)
      λ r a.
        let final : st' ≡ record st { main_reward_info = r.info; producers = r.producers } =
          ground arith in
        let main = inc-IsReady env n st.main_reward_info st.producers r laws a ready.main in
        rw final (record { main = main; backup = ready.backup })

inc_backup-AreReady :
    (env : Env) (n : Name) (st st' : State)
    → IsSdk env.sdk
    → inc_backup env n st ≡ ok st'
    → AreReady env.sdk st
    → AreReady env.sdk st'
unfolding inc_backup
inc_backup-AreReady env n st st' laws h ready =
    with_ok (inc_producer_rewards env n st.backup_reward_info st.producers) (λ m q. ground arith)
      λ r a.
        let final : st' ≡ record st { backup_reward_info = r.info; producers = r.producers } =
          ground arith in
        let backup = inc-IsReady env n st.backup_reward_info st.producers r laws a ready.backup in
        rw final (record { main = ready.main; backup = backup })

halve-AreReady :
    (env : Env) (st st' : State)
    → IsSdk env.sdk
    → halve env st ≡ ok st'
    → AreReady env.sdk st
    → AreReady env.sdk st'
unfolding halve halve_now
halve-AreReady env st st' laws h ready =
    elim (Bool-cases (ltb st.halving_period_num (period_at env st))) [
      | inr a ↦ let same : st' ≡ st = ground arith in rw same ready
      | inl a ↦
          with_ok (calc_halving_rewards_per_block env st.main_reward_info) (λ m q. ground arith)
            λ main b.
              let ready_main = halved-IsReady env st.main_reward_info main laws b ready.main in
              elim (Bool-cases (is_bbp_enabled st)) [
                | inl on ↦
                    with_ok (calc_halving_rewards_per_block env st.backup_reward_info)
                      (λ m q. ground arith)
                      λ backup c.
                        let final : st' ≡ record st {
                          halving_period_num = period_at env st;
                          main_reward_info = record st.main_reward_info {
                            rewards_per_block = main;
                          };
                          backup_reward_info = record st.backup_reward_info {
                            rewards_per_block = backup;
                          };
                        } =
                          ground arith in
                        rw final (record {
                          main = ready_main;
                          backup =
                              halved-IsReady env st.backup_reward_info backup laws c ready.backup;
                        })
                | inr off ↦
                    let final : st' ≡ record st {
                      halving_period_num = period_at env st;
                      main_reward_info = record st.main_reward_info { rewards_per_block = main };
                    } =
                      ground arith in
                    rw final (record { main = ready_main; backup = ready.backup })
              ]
    ]

reward_backup-AreReady :
    (env : Env) (block : Block) (st st' : State) (o : Option (Name × ℕ))
    → IsSdk env.sdk
    → reward_backup env block st o ≡ ok st'
    → AreReady env.sdk st
    → AreReady env.sdk st'
reward_backup-AreReady env block st st' none laws h ready =
    let same : st' ≡ st = ground arith in rw same ready
reward_backup-AreReady env block st st' (some (n, c)) laws h ready =
    elim (Bool-cases (not block.is_backup && leb st.min_backup_reward_contribution c)) [
      | inl a ↦ inc_backup-AreReady env n st st' laws (ground arith) ready
      | inr a ↦ let same : st' ≡ st = ground arith in rw same ready
    ]

started-AreReady :
    (env : Env) (st st' : State)
    → IsSdk env.sdk
    → (if leb st.init_reward_end_time env.now then halve env st else ok st) ≡ ok st'
    → AreReady env.sdk st
    → AreReady env.sdk st'
started-AreReady env st st' laws h ready = elim (Bool-cases (leb st.init_reward_end_time env.now)) [
  | inl a ↦ halve-AreReady env st st' laws (ground arith) ready
  | inr a ↦ let same : st' ≡ st = ground arith in rw same ready
]

reward_producers-AreReady :
    (env : Env) (block : Block) (st st' : State)
    → IsSdk env.sdk
    → reward_producers env block st ≡ ok st'
    → AreReady env.sdk st
    → AreReady env.sdk st'
unfolding reward_producers
reward_producers-AreReady env block st st' laws h ready =
    with_ok (if leb st.init_reward_end_time env.now then halve env st else ok st)
      (λ m q. ground arith)
      λ halved a.
        with_ok (inc_main env block.producer halved) (λ m q. ground arith)
          λ paid b.
            let first = started-AreReady env st halved laws a ready in
            let second = inc_main-AreReady env block.producer halved paid laws b first in
            elim (Bool-cases (
              is_bbp_enabled paid
              && ltb_ℤ (pos 0) paid.backup_reward_info.rewards_per_block.amount)) [
                | inl c ↦
                    reward_backup-AreReady env block paid st' block.previous_backup laws
                      (ground arith) second
                | inr c ↦ let same : st' ≡ paid = ground arith in rw same second
              ]

pub onblock_rewards-AreReady :
    (env : Env) (block : Block) (st st' : State)
    → IsSdk env.sdk
    → onblock_rewards env block st ≡ ok st'
    → AreReady env.sdk st
    → AreReady env.sdk st'
unfolding onblock_rewards
onblock_rewards-AreReady env block st st' laws h ready =
    elim (Bool-cases (
      is_init st
      && not (st.init_reward_start_time == 0)
      && leb st.init_reward_start_time env.now)) [
        | inl a ↦ reward_producers-AreReady env block st st' laws (ground arith) ready
        | inr a ↦ let same : st' ≡ st = ground arith in rw same ready
      ]
