-- ===== src/One/Claims.antt =====
-- What a claim of amax.one pays, and from what.
use amax_contracts.Common.{◌≡◌, Bool, ◌∷◌, arith, ok, Option-cases, Result-cases, inl, inr, some}
use amax_contracts.Common.Int.{pos, ◌-ℤ◌, ◌≤ℤ◌, ◌<ℤ◌}
use amax_contracts.Chain.{Name, Asset, asset, IsSdk, Memo}
use amax_contracts.Chain.Table.{find, modify}
use amax_contracts.One.{SwapConf, transferred, logged, State, Env, key_of, reward_of, claim_reward}

-- The state after a claim: the row has less left, and the payment and its log are sent.
abbrev pub after_claim : Env → Name → Asset → Asset → Memo → Memo → SwapConf → State → State
after_claim env to recd reward ads_id memo conf st = record st {
  swap_confs =
      modify env.self (key_of recd.amount) env.self
        (record conf {
          mine_token_remained =
              asset (conf.mine_token_remained.amount -ℤ reward.amount)
                conf.mine_token_remained.symbol;
        })
        st.swap_confs;
  sent =
      logged to recd reward ads_id env.now
      ∷ transferred st.global.mine_token_contract to reward memo
      ∷ st.sent;
}

-- A reward is positive, in the mined token, and no more than what its row has left.
abbrev pub Payable : Asset → SwapConf → Type 0
Payable reward conf =
    (pos 0 <ℤ reward.amount)
    × (reward.amount ≤ℤ conf.mine_token_remained.amount)
    × (reward.symbol ≡ conf.mine_token_remained.symbol)

pub claim_reward-eq-ok :
    (env : Env) (to : Name) (recd : Asset) (checked : Bool) (ads_id memo : Memo) (st st' : State)
    → IsSdk env.sdk
    → claim_reward env to recd checked ads_id memo st ≡ ok st'
    → (conf : SwapConf) × (find env.self (key_of recd.amount) st.swap_confs ≡ some conf)
      × Payable (reward_of checked conf) conf
      × (st' ≡ after_claim env to recd (reward_of checked conf) ads_id memo conf st)
unfolding claim_reward
claim_reward-eq-ok env to recd checked ads_id memo st st' laws h =
    elim (Option-cases (find env.self (key_of recd.amount) st.swap_confs)) [
      | inl e ↦ absurd (ground arith)
      | inr (conf, e) ↦
          let reward = reward_of checked conf in
          let left = conf.mine_token_remained in
          elim (Result-cases (env.sdk.lt left reward)) [
            | inr (m, l) ↦ absurd (ground arith)
            | inl (short, l) ↦ elim (Result-cases (env.sdk.sub left reward)) [
              | inr (m, s) ↦ absurd (ground arith)
              | inl (rest, s) ↦
                  let compared = laws.lt_lem left reward in
                  let subtracted = laws.sub_lem left reward in
                  (conf, e, (ground arith, ground arith, ground arith), ground arith)
            ]
          ]
    ]
