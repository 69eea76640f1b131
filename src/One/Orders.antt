-- ===== src/One/Orders.antt =====
-- The orders of amax.one, which wait for the check of their advertisement.
use amax_contracts.Common.{
  ℕ, ◌≡◌, refl, true, false, none, some, [], arith, ok, err, Option-cases, Result-cases, inl, inr,
  ◌⊎◌,
}
use amax_contracts.Chain.{Asset, Memo, IsSdk}
use amax_contracts.Chain.Table.{find, erase, Rows, find-erase_self}
use amax_contracts.One.{
  SwapConf, AdsOrder, State, Env, key_of, claim_reward, confirmads, onswapexpird,
}
use amax_contracts.One.Claims.{after_claim, Payable, claim_reward-eq-ok}

-- The settlement of an order by its row in the table of swaps: its miner is paid the reward `pays` of
-- that row, with the advertisement `ads`, and the order's row is gone, whatever else is there.
abbrev pub Settled : (SwapConf → Asset) → (AdsOrder → Memo) → Env → ℕ → State → State → Type 0
Settled pays ads env order_id st st' =
    (order : AdsOrder) × (conf : SwapConf) × (find env.self order_id st.ads_orders ≡ some order)
    × (find env.self (key_of order.recd_apls.amount) st.swap_confs ≡ some conf)
    × Payable (pays conf) conf
    × (st'
        ≡ record (after_claim env order.miner order.recd_apls (pays conf) (ads order) [] conf st) {
          ads_orders = erase env.self order_id st.ads_orders;
        })

-- A confirmation that goes through was signed by the manager of the sale. It pays the order's miner
-- the reward that its row sets for checked advertisements, which is positive and no more than the
-- row has left, tells of the advertisement, and erases the order.
pub confirmads-Settled :
    (env : Env) (order_id : ℕ) (st st' : State)
    → IsSdk env.sdk
    → confirmads env order_id st ≡ ok st'
    → (env.has_auth st.global.admin ≡ true)
      × Settled
          (λ conf. conf.swap_tokens_after_adscheck)
          (λ order. order.ads_id)
          env
          order_id
          st
          st'
unfolding confirmads
confirmads-Settled env order_id st st' laws h =
    elim (Option-cases (find env.self order_id st.ads_orders)) [
      | inl e ↦ absurd (ground arith)
      | inr (order, e) ↦
          elim (Result-cases
            (claim_reward env order.miner order.recd_apls true order.ads_id [] st)) [
              | inr (m, c) ↦ absurd (ground arith)
              | inl (mid, c) ↦
                  let (conf, f, payable, final) =
                    claim_reward-eq-ok env order.miner order.recd_apls true order.ads_id [] st mid
                      laws c in
                  (ground arith, (order, conf, e, f, payable, ground arith))
            ]
    ]

pub onswapexpird-Settled :
    (env : Env) (order_id : ℕ) (st st' : State)
    → IsSdk env.sdk
    → onswapexpird env order_id st ≡ ok st'
    → (env.has_auth st.global.admin ≡ true)
      × Settled (λ conf. conf.swap_tokens) (λ order. []) env order_id st st'
unfolding onswapexpird
onswapexpird-Settled env order_id st st' laws h =
    elim (Option-cases (find env.self order_id st.ads_orders)) [
      | inl e ↦ absurd (ground arith)
      | inr (order, e) ↦
          elim (Result-cases (claim_reward env order.miner order.recd_apls false [] [] st)) [
            | inr (m, c) ↦ absurd (ground arith)
            | inl (mid, c) ↦
                let (conf, f, payable, final) =
                  claim_reward-eq-ok env order.miner order.recd_apls false [] [] st mid laws c in
                (ground arith, (order, conf, e, f, payable, ground arith))
          ]
    ]

-- What both settlements leave of the orders.
erased :
    (env : Env) (order_id : ℕ) (st st' : State)
    → IsSdk env.sdk
    → (confirmads env order_id st ≡ ok st') ⊎ (onswapexpird env order_id st ≡ ok st')
    → (st'.ads_orders ≡ erase env.self order_id st.ads_orders)
      × (st'.global.admin ≡ st.global.admin)
erased env order_id st st' laws (inl h) =
    let (auth, (order, conf, e, f, payable, final)) =
      confirmads-Settled env order_id st st' laws h in
    rw final (refl, refl)
erased env order_id st st' laws (inr h) =
    let (auth, (order, conf, e, f, payable, final)) =
      onswapexpird-Settled env order_id st st' laws h in
    rw final (refl, refl)

-- An order is settled only once: after a confirmation or an expiry of it went through, both abort on
-- its id, signed by the manager, where no two orders had one key.
pub settle_once :
    (env env' : Env) (order_id : ℕ) (st st' : State)
    → IsSdk env.sdk
    → env'.self ≡ env.self
    → Rows (λ s k r. Unit {0}) st.ads_orders
    → (confirmads env order_id st ≡ ok st') ⊎ (onswapexpird env order_id st ≡ ok st')
    → env'.has_auth st.global.admin ≡ true
    → (confirmads env' order_id st' ≡ err "order_id not existed")
      × (onswapexpird env' order_id st' ≡ err "order_id not existed")
unfolding confirmads onswapexpird
settle_once env env' order_id st st' laws same unique done auth =
    let (orders, admin) = erased env order_id st st' laws done in
    let gone : find env'.self order_id st'.ads_orders ≡ none =
      rw orders
        (rw same (find-erase_self (λ s k r. Unit {0}) env.self order_id st.ads_orders unique)) in
    (ground arith, ground arith)
