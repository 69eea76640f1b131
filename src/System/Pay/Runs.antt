-- ===== src/System/Pay/Runs.antt =====
-- What producers are ever paid, over any run of producer_pay.cpp.
use amax_contracts.Common.{◌≡◌, sym, [], ◌∷◌, ok}
use amax_contracts.Common.Int.{ℤ, pos, ◌+ℤ◌, ◌≤ℤ◌, int_laws}
use amax_contracts.Chain.{Sdk, IsSdk}
use amax_contracts.Chain.Table.{Table, Rows, total}
use amax_contracts.System.Pay.{ProducerInfo, State, Env}
use amax_contracts.System.Pay.Operations.{
  Action, blocks, configures, configures_backup, configures_contribution, claims, undoes, apply,
}
use amax_contracts.System.Pay.Increments.{unclaimed_by, NonNegative}
use amax_contracts.System.Pay.Blocks.{onblock_rewards-Produces}
use amax_contracts.System.Pay.Readiness.{AreReady}
use amax_contracts.System.Pay.Readiness.Rewards.{onblock_rewards-AreReady}
use amax_contracts.System.Pay.Issues.{
  issued_sum, IsCovered, Produces-IsCovered, claimrewards-IsCovered, undoreward-IsCovered,
  cfgcontrib-IsCovered,
}
use amax_contracts.System.Pay.Configurations.{
  cfgreward-IsCovered, cfgbbpreward-IsCovered, cfgcontrib-AreReady, claimrewards-AreReady,
  undoreward-AreReady,
}

-- The states that actions lead to, each in its own environment, on one SDK.
pub data Reach (sdk : Sdk) (first : State) : State → Type 0 where
  starts : Reach sdk first first
  acts :
      (env : Env) (a : Action) (st st' : State)
      → env.sdk ≡ sdk
      → Reach sdk first st
      → apply env a st ≡ ok st'
      → Reach sdk first st'

apply-IsCovered :
    (env : Env) (a : Action) (st st' : State)
    → IsSdk env.sdk
    → apply env a st ≡ ok st'
    → AreReady env.sdk st
    → IsCovered st
    → IsCovered st' × AreReady env.sdk st'
unfolding apply
apply-IsCovered env (blocks b) st st' laws h ready c = (
  Produces-IsCovered st st' (onblock_rewards-Produces env b st st' laws h) c,
  onblock_rewards-AreReady env b st st' laws h ready,
)
apply-IsCovered env (configures start end main backup) st st' laws h ready c =
    cfgreward-IsCovered env start end main backup st st' laws ready h c
apply-IsCovered env (configures_backup per_block) st st' laws h ready c =
    cfgbbpreward-IsCovered env per_block st st' laws ready h c
apply-IsCovered env (configures_contribution x) st st' laws h ready c =
    (cfgcontrib-IsCovered env x st st' h c, cfgcontrib-AreReady env x st st' h ready)
apply-IsCovered env (claims submitter owner) st st' laws h ready c = (
  claimrewards-IsCovered env submitter owner st st' laws h c,
  claimrewards-AreReady env submitter owner st st' laws h ready,
)
apply-IsCovered env (undoes owner rewards) st st' laws h ready c = (
  undoreward-IsCovered env owner rewards st st' laws h c,
  undoreward-AreReady env owner rewards st st' h ready,
)

Reach-IsCovered :
    (sdk : Sdk) (first st : State)
    → IsSdk sdk
    → Reach sdk first st
    → AreReady sdk first
    → IsCovered first
    → IsCovered st × AreReady sdk st
Reach-IsCovered sdk first st laws starts ready c = (c, ready)
Reach-IsCovered sdk first _ laws (acts env a before st' same r h) ready c =
    let (covered, still) = Reach-IsCovered sdk first before laws r ready c in
    rw (sym same) (apply-IsCovered env a before st' (rw same laws) h (rw same still) covered)

total_nonneg :
    (rows : Table ProducerInfo) → Rows NonNegative rows → pos 0 ≤ℤ total unclaimed_by rows
total_nonneg [] h = omega int_laws
total_nonneg (x ∷ rows) h = grind (int_laws, total_nonneg rows h.2, h.1)

most : (t s p q a b : ℤ) → pos 0 ≤ℤ t → t +ℤ s ≤ℤ p +ℤ q → p ≤ℤ a → q ≤ℤ b → s ≤ℤ a +ℤ b
most t s p q a b h k m n = grind int_laws

-- Over any run of blocks, claims, undone rewards and configuration, the first one included, on an
-- SDK that keeps to its documentation, the tokens that are ever issued to producers are at most the
-- total main rewards and the total backup rewards. The run starts from a state in which what was
-- issued or is unclaimed was produced and within the totals, no producer's unclaimed rewards are
-- negative, and the main rewards, and likewise the backup rewards, are unset, with no amount, or were
-- configured before, with a valid asset of produced rewards.
pub Reach-issued :
    (sdk : Sdk) (first st : State)
    → IsSdk sdk
    → Reach sdk first st
    → AreReady sdk first
    → IsCovered first
    → issued_sum st.sent
      ≤ℤ st.main_reward_info.total_rewards.amount +ℤ st.backup_reward_info.total_rewards.amount
Reach-issued sdk first st laws r ready c =
    let (d, still) = Reach-IsCovered sdk first st laws r ready c in
    most (total unclaimed_by st.producers) (issued_sum st.sent)
      st.main_reward_info.produced_rewards.amount st.backup_reward_info.produced_rewards.amount
      st.main_reward_info.total_rewards.amount st.backup_reward_info.total_rewards.amount
      (total_nonneg st.producers d.nonneg) d.covered d.main_within d.backup_within
