-- ===== src/One/Deposits.antt =====
-- A deposit of APL at amax.one.
use amax_contracts.Common.{
  ℕ, ◌+◌, ◌%◌, ◌^◌, ◌≡◌, ◌≢◌, ◌≤◌, ◌<◌, ◌⊎◌, true, false, ◌==◌, ◌||◌, not, none, some, [], ◌∷◌,
  arith, ok, Option-cases, Result-cases, Bool-cases, inl, inr, sym,
}
use amax_contracts.Common.Int.{pos, ◌<ℤ◌}
use amax_contracts.Chain.{Name, Asset, symbol_eq, IsSdk, Memo}
use amax_contracts.Chain.Table.{find}
use amax_contracts.One.{
  SwapConf, AdsOrder, State, Env, key_of, now_sec, apl_symbol, claim_reward, add_adsorder,
  is_ads_order, take_deposit, checked_deposit, ontransfer,
}
use amax_contracts.One.Memos.{get_ads_id}
use amax_contracts.One.Claims.{after_claim, Payable, claim_reward-eq-ok}

abbrev pub new_order : Env → ℕ → Name → Asset → Memo → AdsOrder
new_order env id miner quantity ads_id = record {
  id = id;
  miner = miner;
  ads_id = ads_id;
  recd_apls = quantity;
  created_at = now_sec env;
  expired_at = (now_sec env + 3600) % 2 ^ 32;
}

abbrev pub next_id : State → ℕ
next_id st = (st.global.last_order_id + 1) % 2 ^ 64

-- The state with one more order, under a new id.
abbrev pub with_order : Env → Name → Asset → Memo → State → State
with_order env miner quantity ads_id st = record st {
  global = record st.global { last_order_id = next_id st };
  ads_orders =
      record {
        scope = env.self;
        key = next_id st;
        payer = env.self;
        row = new_order env (next_id st) miner quantity ads_id;
      }
      ∷ st.ads_orders;
}

-- A deposit is swapped at once at the row of its amount, or it waits as an order under a free id.
abbrev pub Outcome : Env → Name → Asset → Memo → SwapConf → State → State → Type 0
Outcome env from q memo conf st st' =
    ((is_ads_order q memo ≡ false)
      × Payable conf.swap_tokens conf
      × (st' ≡ after_claim env from q conf.swap_tokens [] [] conf st))
    ⊎ ((is_ads_order q memo ≡ true)
        × (find env.self (next_id st) st.ads_orders ≡ none)
        × (st' ≡ with_order env from q (get_ads_id memo) st))

add_adsorder-eq-ok :
    (env : Env) (miner : Name) (q : Asset) (ads_id : Memo) (st st' : State)
    → add_adsorder env miner q ads_id st ≡ ok st'
    → (find env.self (next_id st) st.ads_orders ≡ none) × (st' ≡ with_order env miner q ads_id st)
unfolding add_adsorder
add_adsorder-eq-ok env miner q ads_id st st' h =
    elim (Option-cases (find env.self (next_id st) st.ads_orders)) [
      | inl e ↦ (e, ground arith)
      | inr (order, e) ↦ absurd (ground arith)
    ]

-- What holds when a deposit is taken, and what becomes of it.
abbrev pub Taken : Env → Name → Asset → Memo → State → State → Type 0
Taken env from q memo st st' =
    (st.global.started_at ≤ now_sec env)
    × (now_sec env < st.global.ended_at)
    × (symbol_eq q.symbol apl_symbol ≡ true)
    × ((conf : SwapConf) × (find env.self (key_of q.amount) st.swap_confs ≡ some conf)
        × Outcome env from q memo conf st st')

swapped :
    (env : Env) (from : Name) (q : Asset) (memo : Memo) (conf : SwapConf) (st st' : State)
    → IsSdk env.sdk
    → is_ads_order q memo ≡ false
    → find env.self (key_of q.amount) st.swap_confs ≡ some conf
    → claim_reward env from q false [] [] st ≡ ok st'
    → Outcome env from q memo conf st st'
swapped env from q memo conf st st' laws b e h =
    let (conf', e', payable, final) = claim_reward-eq-ok env from q false [] [] st st' laws h in
    let same : conf' ≡ conf = ground arith in inl (b, rw (sym same) payable, rw (sym same) final)

take_deposit-Taken :
    (env : Env) (from : Name) (q : Asset) (memo : Memo) (st st' : State)
    → IsSdk env.sdk
    → take_deposit env from q memo st ≡ ok st'
    → Taken env from q memo st st'
unfolding take_deposit
take_deposit-Taken env from q memo st st' laws h =
    elim (Option-cases (find env.self (key_of q.amount) st.swap_confs)) [
      | inl e ↦ absurd (ground arith)
      | inr (conf, e) ↦ elim (Result-cases (env.sdk.lt conf.mine_token_remained conf.swap_tokens)) [
        | inr (m, l) ↦ absurd (ground arith)
        | inl (short, l) ↦
            let outcome : Outcome env from q memo conf st st' =
              elim (Bool-cases (is_ads_order q memo)) [
                | inl b ↦
                    let (free, final) =
                      add_adsorder-eq-ok env from q (get_ads_id memo) st st' (ground arith) in
                    inr (b, free, final)
                | inr b ↦ swapped env from q memo conf st st' laws b e (ground arith)
              ] in
            (ground arith, ground arith, ground arith, (conf, e, outcome))
      ]
    ]

-- A deposit that another account makes and that goes through is of a positive amount, by an account
-- whose sum of APL is below the limit. If the token's blacklist has that account, the deposit
-- changes nothing, in whatever symbol it is. Otherwise it was made while the sale is open, in APL,
-- of an amount that has a row; it is swapped at once for that row's tokens, or, with an
-- advertisement, waits as an order under an id that was free.
pub ontransfer-Taken :
    (env : Env) (from to : Name) (q : Asset) (memo : Memo) (st st' : State)
    → IsSdk env.sdk
    → from ≢ env.self
    → to ≡ env.self
    → ontransfer env from to q memo st ≡ ok st'
    → (pos 0 <ℤ q.amount)
      × ((sum : Asset) × (env.apl_sum from ≡ ok sum) × (sum.amount <ℤ pos 10000000))
      × (((env.token_blacklist from ≡ true) × (st' ≡ st))
          ⊎ ((env.token_blacklist from ≡ false) × Taken env from q memo st st'))
unfolding ontransfer checked_deposit
ontransfer-Taken env from to q memo st st' laws other mine h =
    let skipped : (from == env.self || not (to == env.self)) ≡ false = ground arith in
    elim (Result-cases (env.apl_sum from)) [
      | inr (m, a) ↦ absurd (ground arith)
      | inl (sum, a) ↦ (
        ground arith,
        (sum, a, ground arith),
        elim (Bool-cases (env.token_blacklist from)) [
          | inl b ↦ inl (b, ground arith)
          | inr b ↦ inr (b, take_deposit-Taken env from q memo st st' laws (ground arith))
        ],
      )
    ]
