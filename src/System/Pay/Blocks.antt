-- ===== src/System/Pay/Blocks.antt =====
-- What a block adds to the rewards.
use amax_contracts.Common.{
  ℕ, ◌≡◌, refl, ◌∙◌, if◌then◌else◌, ◌==◌, ◌&&◌, not, ltb, leb, Option, none, some, arith, ok,
  with_ok, Bool-cases, inl, inr,
}
use amax_contracts.Common.Int.{ℤ, pos, ◌+ℤ◌, ltb_ℤ, int_laws}
use amax_contracts.Chain.{Name, Asset, IsSdk}
use amax_contracts.Chain.Table.{Rows, total}
use amax_contracts.System.Pay.{
  State, Env, Block, is_init, is_bbp_enabled, calc_halving_rewards_per_block, inc_producer_rewards,
}
use amax_contracts.System.Pay.Operations.{
  period_at, halve_now, halve, inc_main, inc_backup, reward_backup, reward_producers,
  onblock_rewards,
}
use amax_contracts.System.Pay.Increments.{unclaimed_by, NonNegative, Within, inc-Incs}

-- What holds from a state to the next while the rewards are not configured: what is produced and
-- what the rows have grow by the same, and stay in their bounds.
pub record Produces (st st' : State) : Type 0 where
  pub same_main : st'.main_reward_info.total_rewards ≡ st.main_reward_info.total_rewards
  pub same_backup : st'.backup_reward_info.total_rewards ≡ st.backup_reward_info.total_rewards
  pub moves :
      total unclaimed_by st'.producers
        +ℤ (st.main_reward_info.produced_rewards.amount
            +ℤ st.backup_reward_info.produced_rewards.amount)
      ≡ total unclaimed_by st.producers
        +ℤ (st'.main_reward_info.produced_rewards.amount
            +ℤ st'.backup_reward_info.produced_rewards.amount)
  pub main_within : Within st.main_reward_info → Within st'.main_reward_info
  pub backup_within : Within st.backup_reward_info → Within st'.backup_reward_info
  pub nonneg : Rows NonNegative st.producers → Rows NonNegative st'.producers
  pub same_sent : st'.sent ≡ st.sent

same-Produces : (st : State) → Produces st st
same-Produces st = record {
  same_main = refl;
  same_backup = refl;
  moves = refl;
  main_within = λ h. h;
  backup_within = λ h. h;
  nonneg = λ h. h;
  same_sent = refl;
}

chained : (a b c x y z : ℤ) → b +ℤ x ≡ a +ℤ y → c +ℤ y ≡ b +ℤ z → c +ℤ x ≡ a +ℤ z
chained a b c x y z e f = grind int_laws

Produces-trans : (a b c : State) → Produces a b → Produces b c → Produces a c
Produces-trans a b c p q = record {
  same_main = q.same_main ∙ p.same_main;
  same_backup = q.same_backup ∙ p.same_backup;
  moves =
      chained (total unclaimed_by a.producers) (total unclaimed_by b.producers)
        (total unclaimed_by c.producers)
        (a.main_reward_info.produced_rewards.amount +ℤ a.backup_reward_info.produced_rewards.amount)
        (b.main_reward_info.produced_rewards.amount +ℤ b.backup_reward_info.produced_rewards.amount)
        (c.main_reward_info.produced_rewards.amount +ℤ c.backup_reward_info.produced_rewards.amount)
        p.moves q.moves;
  main_within = λ h. q.main_within (p.main_within h);
  backup_within = λ h. q.backup_within (p.backup_within h);
  nonneg = λ h. q.nonneg (p.nonneg h);
  same_sent = q.same_sent ∙ p.same_sent;
}

main_moved : (t t' p p' q : ℤ) → t' +ℤ p ≡ t +ℤ p' → t' +ℤ (p +ℤ q) ≡ t +ℤ (p' +ℤ q)
main_moved t t' p p' q e = grind int_laws

backup_moved : (t t' p p' q : ℤ) → t' +ℤ p ≡ t +ℤ p' → t' +ℤ (q +ℤ p) ≡ t +ℤ (q +ℤ p')
backup_moved t t' p p' q e = grind int_laws

inc_main-Produces :
    (env : Env) (n : Name) (st st' : State)
    → IsSdk env.sdk
    → inc_main env n st ≡ ok st'
    → Produces st st'
unfolding inc_main
inc_main-Produces env n st st' laws h =
    with_ok (inc_producer_rewards env n st.main_reward_info st.producers) (λ m q. ground arith)
      λ r a.
        let incs = inc-Incs env n st.main_reward_info st.producers r laws a in
        let final : st' ≡ record st { main_reward_info = r.info; producers = r.producers } =
          ground arith in
        rw final (record {
          same_main = incs.same_total;
          same_backup = refl;
          moves =
              main_moved (total unclaimed_by st.producers) (total unclaimed_by r.producers)
                st.main_reward_info.produced_rewards.amount r.info.produced_rewards.amount
                st.backup_reward_info.produced_rewards.amount incs.moves;
          main_within = incs.within;
          backup_within = λ h. h;
          nonneg = incs.nonneg;
          same_sent = refl;
        })

inc_backup-Produces :
    (env : Env) (n : Name) (st st' : State)
    → IsSdk env.sdk
    → inc_backup env n st ≡ ok st'
    → Produces st st'
unfolding inc_backup
inc_backup-Produces env n st st' laws h =
    with_ok (inc_producer_rewards env n st.backup_reward_info st.producers) (λ m q. ground arith)
      λ r a.
        let incs = inc-Incs env n st.backup_reward_info st.producers r laws a in
        let final : st' ≡ record st { backup_reward_info = r.info; producers = r.producers } =
          ground arith in
        rw final (record {
          same_main = refl;
          same_backup = incs.same_total;
          moves =
              backup_moved (total unclaimed_by st.producers) (total unclaimed_by r.producers)
                st.backup_reward_info.produced_rewards.amount r.info.produced_rewards.amount
                st.main_reward_info.produced_rewards.amount incs.moves;
          main_within = λ h. h;
          backup_within = incs.within;
          nonneg = incs.nonneg;
          same_sent = refl;
        })

rates-Produces :
    (st : State) (period : ℕ) (main backup : Asset)
    → Produces st (record st {
      halving_period_num = period;
      main_reward_info = record st.main_reward_info { rewards_per_block = main };
      backup_reward_info = record st.backup_reward_info { rewards_per_block = backup };
    })
rates-Produces st period main backup = record {
  same_main = refl;
  same_backup = refl;
  moves = refl;
  main_within = λ h. h;
  backup_within = λ h. h;
  nonneg = λ h. h;
  same_sent = refl;
}

-- A new period sets only the rates.
halve-Produces : (env : Env) (st st' : State) → halve env st ≡ ok st' → Produces st st'
unfolding halve halve_now
halve-Produces env st st' h = elim (Bool-cases (ltb st.halving_period_num (period_at env st))) [
  | inr a ↦ let same : st' ≡ st = ground arith in rw same (same-Produces st)
  | inl a ↦
      with_ok (calc_halving_rewards_per_block env st.main_reward_info) (λ m q. ground arith)
        λ main b. elim (Bool-cases (is_bbp_enabled st)) [
          | inl on ↦
              with_ok (calc_halving_rewards_per_block env st.backup_reward_info)
                (λ m q. ground arith)
                λ backup c.
                  let final : st' ≡ record st {
                    halving_period_num = period_at env st;
                    main_reward_info = record st.main_reward_info { rewards_per_block = main };
                    backup_reward_info = record st.backup_reward_info {
                      rewards_per_block = backup;
                    };
                  } =
                    ground arith in
                  rw final (rates-Produces st (period_at env st) main backup)
          | inr off ↦
              let final : st' ≡ record st {
                halving_period_num = period_at env st;
                main_reward_info = record st.main_reward_info { rewards_per_block = main };
              } =
                ground arith in
              rw final
                (rates-Produces st (period_at env st) main st.backup_reward_info.rewards_per_block)
        ]
]

reward_backup-Produces :
    (env : Env) (block : Block) (st st' : State) (o : Option (Name × ℕ))
    → IsSdk env.sdk
    → reward_backup env block st o ≡ ok st'
    → Produces st st'
reward_backup-Produces env block st st' none laws h =
    let same : st' ≡ st = ground arith in rw same (same-Produces st)
reward_backup-Produces env block st st' (some (n, c)) laws h =
    elim (Bool-cases (not block.is_backup && leb st.min_backup_reward_contribution c)) [
      | inl a ↦ inc_backup-Produces env n st st' laws (ground arith)
      | inr a ↦ let same : st' ≡ st = ground arith in rw same (same-Produces st)
    ]

started-Produces :
    (env : Env) (st st' : State)
    → (if leb st.init_reward_end_time env.now then halve env st else ok st) ≡ ok st'
    → Produces st st'
started-Produces env st st' h = elim (Bool-cases (leb st.init_reward_end_time env.now)) [
  | inl a ↦ halve-Produces env st st' (ground arith)
  | inr a ↦ let same : st' ≡ st = ground arith in rw same (same-Produces st)
]

reward_producers-Produces :
    (env : Env) (block : Block) (st st' : State)
    → IsSdk env.sdk
    → reward_producers env block st ≡ ok st'
    → Produces st st'
unfolding reward_producers
reward_producers-Produces env block st st' laws h =
    with_ok (if leb st.init_reward_end_time env.now then halve env st else ok st)
      (λ m q. ground arith)
      λ halved a.
        with_ok (inc_main env block.producer halved) (λ m q. ground arith)
          λ paid b.
            let first = started-Produces env st halved a in
            let second = inc_main-Produces env block.producer halved paid laws b in
            let both = Produces-trans st halved paid first second in
            elim (Bool-cases (
              is_bbp_enabled paid
              && ltb_ℤ (pos 0) paid.backup_reward_info.rewards_per_block.amount)) [
                | inl c ↦ Produces-trans st paid st' both (
                    reward_backup-Produces env block paid st' block.previous_backup laws
                      (ground arith))
                | inr c ↦ let same : st' ≡ paid = ground arith in rw same both
              ]

-- A block gives the producers what it counts as produced, and pays nothing by itself.
-- The rewards of a block move what is newly produced to the rows of the producers, and nothing
-- else: the unclaimed rewards of all producers grow by exactly what the main and the backup rewards
-- have more produced, whatever was halved; what is produced stays within a total that it was
-- within, no row falls below zero, and nothing is sent.
pub onblock_rewards-Produces :
    (env : Env) (block : Block) (st st' : State)
    → IsSdk env.sdk
    → onblock_rewards env block st ≡ ok st'
    → Produces st st'
unfolding onblock_rewards
onblock_rewards-Produces env block st st' laws h =
    elim (Bool-cases (
      is_init st
      && not (st.init_reward_start_time == 0)
      && leb st.init_reward_start_time env.now)) [
        | inl a ↦ reward_producers-Produces env block st st' laws (ground arith)
        | inr a ↦ let same : st' ≡ st = ground arith in rw same (same-Produces st)
      ]
