-- ===== src/System/Pay/Issues.antt =====
-- What is issued keeps to what was produced, under each action of producer_pay.cpp.
use amax_contracts.Common.{
  ℕ, ◌≡◌, refl, some, List, [], ◌∷◌, ◌++◌, arith, ok, with_ok, with_some, Bool-cases, inl, inr,
}
use amax_contracts.Common.Int.{ℤ, pos, ◌+ℤ◌, ◌-ℤ◌, ◌≤ℤ◌, ltb_ℤ, int_laws}
use amax_contracts.Chain.{Name, Asset, asset, IsSdk}
use amax_contracts.Chain.Table.{
  find, modify_same, modify, Rows, total, modify_same-Rows, modify-Rows, total-modify_same,
  total-modify,
}
use amax_contracts.System.Pay.{ProducerInfo, Sent, issued, transferred, registered, State, Env}
use amax_contracts.System.Pay.Operations.{share_actions, cfgcontrib, claimrewards, undoreward}
use amax_contracts.System.Pay.Increments.{unclaimed_by, NonNegative, Within}
use amax_contracts.System.Pay.Blocks.{Produces}
use amax_contracts.System.Pay.Claims.{shared_part, cleared, sharing, claimrewards-sharing}

-- The amounts of the tokens that are issued.
abbrev pub issued_sum : List Sent → ℤ
issued_sum [] = pos 0
issued_sum (issued to quantity ∷ l) = quantity.amount +ℤ issued_sum l
issued_sum (transferred from to quantity ∷ l) = issued_sum l
issued_sum (registered owner ∷ l) = issued_sum l

-- What is issued and still unclaimed was produced, and what is produced keeps to its total.
pub record IsCovered (st : State) : Type 0 where
  pub nonneg : Rows NonNegative st.producers
  pub main_within : Within st.main_reward_info
  pub backup_within : Within st.backup_reward_info
  pub covered :
      total unclaimed_by st.producers +ℤ issued_sum st.sent
      ≤ℤ st.main_reward_info.produced_rewards.amount
        +ℤ st.backup_reward_info.produced_rewards.amount

block_sum : (t t' p p' s : ℤ) → t' +ℤ p ≡ t +ℤ p' → t +ℤ s ≤ℤ p → t' +ℤ s ≤ℤ p'
block_sum t t' p p' s e h = grind int_laws

pub Produces-IsCovered : (st st' : State) → Produces st st' → IsCovered st → IsCovered st'
Produces-IsCovered st st' p c = record {
  nonneg = p.nonneg c.nonneg;
  main_within = p.main_within c.main_within;
  backup_within = p.backup_within c.backup_within;
  covered = rw p.same_sent (
      block_sum (total unclaimed_by st.producers) (total unclaimed_by st'.producers)
        (st.main_reward_info.produced_rewards.amount
          +ℤ st.backup_reward_info.produced_rewards.amount)
        (st'.main_reward_info.produced_rewards.amount
          +ℤ st'.backup_reward_info.produced_rewards.amount)
        (issued_sum st.sent) p.moves c.covered);
}

issued_sum-share_actions :
    (env : Env) (owner : Name) (shared : Asset) (l : List Sent)
    → issued_sum (share_actions env owner shared ++ l) ≡ issued_sum l
issued_sum-share_actions env owner shared l = elim (Bool-cases (ltb_ℤ (pos 0) shared.amount)) [
  | inl a ↦ elim (Bool-cases (env.is_producer_registered owner)) [
    | inl b ↦ rw a (rw b refl)
    | inr b ↦ rw a (rw b refl)
  ]
  | inr a ↦ rw a refl
]

claim_sum : (t t' u s q : ℤ) → t' +ℤ u ≡ t +ℤ pos 0 → t +ℤ s ≤ℤ q → t' +ℤ (u +ℤ s) ≤ℤ q
claim_sum t t' u s q e h = grind int_laws

sharing-IsCovered :
    (env : Env) (owner : Name) (p : ProducerInfo) (st : State) (shared : Asset)
    → find env.self owner st.producers ≡ some p
    → IsCovered st
    → IsCovered (sharing env owner p st shared)
sharing-IsCovered env owner p st shared f c = record {
  nonneg =
      modify_same-Rows NonNegative env.self owner (cleared env p) st.producers c.nonneg
        (omega int_laws);
  main_within = c.main_within;
  backup_within = c.backup_within;
  covered =
      rw
        (issued_sum-share_actions env owner shared (
          transferred env.self p.owner p.unclaimed_rewards
          ∷ issued env.self p.unclaimed_rewards
          ∷ st.sent))
        (claim_sum (total unclaimed_by st.producers)
          (total unclaimed_by (modify_same env.self owner (cleared env p) st.producers))
          p.unclaimed_rewards.amount (issued_sum st.sent)
          (st.main_reward_info.produced_rewards.amount
            +ℤ st.backup_reward_info.produced_rewards.amount)
          (total-modify_same unclaimed_by env.self owner (cleared env p) p st.producers f)
          c.covered);
}

pub claimrewards-IsCovered :
    (env : Env) (submitter owner : Name) (st st' : State)
    → IsSdk env.sdk
    → claimrewards env submitter owner st ≡ ok st'
    → IsCovered st
    → IsCovered st'
claimrewards-IsCovered env submitter owner st st' laws h c =
    let (p, u, ratio, f, active, amount, shared, above, late, part, result) =
      claimrewards-sharing env submitter owner st st' laws h in
    rw result (
      sharing-IsCovered env owner p st
        (asset (pos (shared_part u ratio)) p.unclaimed_rewards.symbol) f c)

undo_sum :
    (t t' u v r s q : ℤ) → t' +ℤ u ≡ t +ℤ v → v ≡ u -ℤ r → pos 0 ≤ℤ r → t +ℤ s ≤ℤ q → t' +ℤ s ≤ℤ q
undo_sum t t' u v r s q e f h k = grind int_laws

left_nonneg : (u v r : ℤ) → v ≡ u -ℤ r → r ≤ℤ u → pos 0 ≤ℤ v
left_nonneg u v r e h = grind int_laws

pub undoreward-IsCovered :
    (env : Env) (owner : Name) (rewards : Asset) (st st' : State)
    → IsSdk env.sdk
    → undoreward env owner rewards st ≡ ok st'
    → IsCovered st
    → IsCovered st'
unfolding undoreward
undoreward-IsCovered env owner rewards st st' laws h c =
    with_some (find env.self owner st.producers) (λ q. ground arith)
      λ p f.
        with_some p.reward_shared_ratio (λ q. ground arith)
          λ ratio g.
            with_ok (env.sdk.lt p.unclaimed_rewards rewards) (λ m q. ground arith)
              λ few a.
                with_ok (env.sdk.sub p.unclaimed_rewards rewards) (λ m q. ground arith)
                  λ left b.
                    let row : ProducerInfo = record p {
                      unclaimed_rewards = left;
                      last_claimed_time = env.now;
                    } in
                    let result : st'
                        ≡ record st { producers = modify env.self owner owner row st.producers } =
                      ground arith in
                    let compared = laws.lt_lem p.unclaimed_rewards rewards in
                    let taken = laws.sub_lem p.unclaimed_rewards rewards in
                    let left_amount : left.amount ≡ p.unclaimed_rewards.amount -ℤ rewards.amount =
                      ground arith in
                    let positive : pos 0 ≤ℤ rewards.amount = ground arith in
                    let enough : rewards.amount ≤ℤ p.unclaimed_rewards.amount = ground arith in
                    rw result (record {
                      nonneg =
                          modify-Rows NonNegative env.self owner owner row st.producers c.nonneg (
                            left_nonneg p.unclaimed_rewards.amount left.amount rewards.amount
                              left_amount enough);
                      main_within = c.main_within;
                      backup_within = c.backup_within;
                      covered =
                          undo_sum (total unclaimed_by st.producers)
                            (total unclaimed_by (modify env.self owner owner row st.producers))
                            p.unclaimed_rewards.amount left.amount rewards.amount
                            (issued_sum st.sent)
                            (st.main_reward_info.produced_rewards.amount
                              +ℤ st.backup_reward_info.produced_rewards.amount)
                            (total-modify unclaimed_by env.self owner owner row p st.producers f)
                            left_amount positive c.covered;
                    })

pub cfgcontrib-IsCovered :
    (env : Env) (contribution : ℕ) (st st' : State)
    → cfgcontrib env contribution st ≡ ok st'
    → IsCovered st
    → IsCovered st'
unfolding cfgcontrib
cfgcontrib-IsCovered env contribution st st' h c =
    let result : st' ≡ record st { min_backup_reward_contribution = contribution } = ground arith in
    rw result (record {
      nonneg = c.nonneg;
      main_within = c.main_within;
      backup_within = c.backup_within;
      covered = c.covered;
    })
