-- ===== src/System/Pay/Increments.antt =====
-- What a producer's rewards for a block add.
use amax_contracts.Common.{
  ℕ, ◌≡◌, refl, true, some, arith, ok, with_ok, Option-cases, Bool-cases, inl, inr,
}
use amax_contracts.Common.Int.{ℤ, pos, ◌+ℤ◌, ◌≤ℤ◌, ltb_ℤ, leb_ℤ, int_laws}
use amax_contracts.Chain.{Name, IsSdk}
use amax_contracts.Chain.Table.{
  Table, find, modify_same, Rows, total, Rows-find, modify_same-Rows, total-modify_same,
}
use amax_contracts.System.Pay.{
  RewardInfo, ProducerInfo, Env, Rewarded, inc_row, inc_producer_rewards,
}

abbrev pub unclaimed_by : ℕ → ℕ → ProducerInfo → ℤ
unclaimed_by s k p = p.unclaimed_rewards.amount

abbrev pub NonNegative : ℕ → ℕ → ProducerInfo → Type 0
NonNegative s k p = pos 0 ≤ℤ p.unclaimed_rewards.amount

abbrev pub Within : RewardInfo → Type 0
Within info = info.produced_rewards.amount ≤ℤ info.total_rewards.amount

-- What is produced goes to the rows, and never beyond the total.
pub record Incs (info : RewardInfo) (rows : Table ProducerInfo) (r : Rewarded) : Type 0 where
  pub same_total : r.info.total_rewards ≡ info.total_rewards
  pub same_rate : r.info.rewards_per_block ≡ info.rewards_per_block
  pub moves :
      total unclaimed_by r.producers +ℤ info.produced_rewards.amount
      ≡ total unclaimed_by rows +ℤ r.info.produced_rewards.amount
  pub within : Within info → Within r.info
  pub nonneg : Rows NonNegative rows → Rows NonNegative r.producers

none-Incs :
    (info : RewardInfo) (rows : Table ProducerInfo)
    → Incs info rows (record { info = info; producers = rows })
none-Incs info rows = record {
  same_total = refl;
  same_rate = refl;
  moves = refl;
  within = λ h. h;
  nonneg = λ h. h;
}

inc_sum : (t t' p u r s : ℤ) → t' +ℤ p ≡ t +ℤ u → u ≡ p +ℤ r → t' +ℤ s ≡ t +ℤ (s +ℤ r)
inc_sum t t' p u r s e f = grind int_laws

more_nonneg : (old new r : ℤ) → new ≡ old +ℤ r → pos 0 ≤ℤ r → pos 0 ≤ℤ old → pos 0 ≤ℤ new
more_nonneg old new r e h k = grind int_laws

inc_row-Incs :
    (env : Env) (n : Name) (info : RewardInfo) (rows : Table ProducerInfo) (p : ProducerInfo)
    (r : Rewarded)
    → IsSdk env.sdk
    → ltb_ℤ (pos 0) info.rewards_per_block.amount ≡ true
    → find env.self n rows ≡ some p
    → inc_row env n info rows p ≡ ok r
    → Incs info rows r
unfolding inc_row
inc_row-Incs env n info rows p r laws some_ f h =
    with_ok (env.sdk.add info.produced_rewards info.rewards_per_block) (λ m q. ground arith)
      λ produced a.
        with_ok (env.sdk.lt info.total_rewards produced) (λ m q. ground arith)
          λ over b. elim (Bool-cases over) [
            | inl c ↦
                let same : r ≡ record { info = info; producers = rows } = ground arith in
                rw same (none-Incs info rows)
            | inr c ↦
                with_ok (env.sdk.add p.unclaimed_rewards info.rewards_per_block)
                  (λ m q. ground arith)
                  λ unclaimed d.
                    let row : ProducerInfo = record p { unclaimed_rewards = unclaimed } in
                    let info' : RewardInfo = record info { produced_rewards = produced } in
                    let final : r
                        ≡ record { info = info'; producers = modify_same env.self n row rows } =
                      ground arith in
                    let summed = laws.add_lem info.produced_rewards info.rewards_per_block in
                    let summed_p = laws.add_lem p.unclaimed_rewards info.rewards_per_block in
                    let compared = laws.lt_lem info.total_rewards produced in
                    let produced_amount : produced.amount
                        ≡ info.produced_rewards.amount +ℤ info.rewards_per_block.amount =
                      ground arith in
                    let unclaimed_amount : unclaimed.amount
                        ≡ p.unclaimed_rewards.amount +ℤ info.rewards_per_block.amount =
                      ground arith in
                    let below : produced.amount ≤ℤ info.total_rewards.amount = ground arith in
                    let more : pos 0 ≤ℤ info.rewards_per_block.amount = ground arith in
                    let moved = total-modify_same unclaimed_by env.self n row p rows f in
                    rw final (record {
                      same_total = refl;
                      same_rate = refl;
                      moves = rw produced_amount (
                          inc_sum (total unclaimed_by rows)
                            (total unclaimed_by (modify_same env.self n row rows))
                            p.unclaimed_rewards.amount unclaimed.amount
                            info.rewards_per_block.amount info.produced_rewards.amount moved
                            unclaimed_amount);
                      within = λ h. below;
                      nonneg = λ v. modify_same-Rows NonNegative env.self n row rows v (
                          more_nonneg p.unclaimed_rewards.amount unclaimed.amount
                            info.rewards_per_block.amount unclaimed_amount more
                            (Rows-find NonNegative env.self n p rows v f));
                    })
          ]

pub inc-Incs :
    (env : Env) (n : Name) (info : RewardInfo) (rows : Table ProducerInfo) (r : Rewarded)
    → IsSdk env.sdk
    → inc_producer_rewards env n info rows ≡ ok r
    → Incs info rows r
unfolding inc_producer_rewards
inc-Incs env n info rows r laws h =
    elim (Bool-cases (leb_ℤ info.rewards_per_block.amount (pos 0))) [
      | inl a ↦
          let same : r ≡ record { info = info; producers = rows } = ground arith in
          rw same (none-Incs info rows)
      | inr a ↦ elim (Option-cases (find env.self n rows)) [
        | inl f ↦
            let same : r ≡ record { info = info; producers = rows } = ground arith in
            rw same (none-Incs info rows)
        | inr (p, f) ↦ inc_row-Incs env n info rows p r laws (ground arith) f (ground arith)
      ]
    ]
