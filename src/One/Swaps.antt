-- ===== src/One/Swaps.antt =====
-- The mined tokens of amax.one over any run of deposits, confirmations and expiries.
use amax_contracts.Common.{
  ℕ, ◌≡◌, refl, ◌∙◌, Bool, true, false, ◌==◌, ◌||◌, not, some, List, [], ◌∷◌, arith, ok,
  Option-cases, Result-cases, Bool-cases, inl, inr,
}
use amax_contracts.Common.Int.{ℤ, pos, ◌+ℤ◌, ◌-ℤ◌, ◌≤ℤ◌, int_laws}
use amax_contracts.Chain.{Name, Asset, IsSdk, Memo}
use amax_contracts.Chain.Table.{find, Rows, modify-Rows, total, total-modify}
use amax_contracts.One.{
  SwapConf, Sent, transferred, logged, State, Env, key_of, reward_of, claim_reward, add_adsorder,
  is_ads_order, take_deposit, checked_deposit, ontransfer, drop_order, confirmads, onswapexpird,
}
use amax_contracts.One.Memos.{get_ads_id}
use amax_contracts.One.Admin.{
  init, aplswaplog, Action, inits, deposits, confirms, expires, logs, adds, sets, deletes, fresh,
  apply,
}
use amax_contracts.One.Claims.{after_claim, Payable, claim_reward-eq-ok}

abbrev left_in : ℕ → ℕ → SwapConf → ℤ
left_in s k conf = conf.mine_token_remained.amount

-- The mined tokens that the rows still offer, and those that have been paid.
abbrev pub held : State → ℤ
held st = total left_in st.swap_confs

abbrev paid_in : List Sent → ℤ
paid_in [] = pos 0
paid_in (transferred bank to q memo ∷ rest) = q.amount +ℤ paid_in rest
paid_in (logged _ _ _ _ _ ∷ rest) = paid_in rest

abbrev pub paid : State → ℤ
paid st = paid_in st.sent

abbrev NonNegative : ℕ → ℕ → SwapConf → Type 0
NonNegative s k conf = pos 0 ≤ℤ conf.mine_token_remained.amount

-- No row offers less than nothing, and no row stands twice.
abbrev pub IsFunded : State → Type 0
IsFunded st = Rows NonNegative st.swap_confs

-- What was paid was taken from a row, which had it.
abbrev pub Kept : State → State → Type 0
Kept st st' = (IsFunded st → IsFunded st') × (held st' +ℤ paid st' ≡ held st +ℤ paid st)

same-Kept : (st st' : State) → st'.swap_confs ≡ st.swap_confs → st'.sent ≡ st.sent → Kept st st'
same-Kept st st' e f = (λ v. rw e v, rw e (rw f refl))

-- What leaves the rows is what is paid.
move_total : (h h' r left p : ℤ) → h' +ℤ left ≡ h +ℤ (left -ℤ r) → h' +ℤ (r +ℤ p) ≡ h +ℤ p
move_total h h' r left p e = grind int_laws

after_claim-Kept :
    (env : Env) (to : Name) (recd reward : Asset) (ads_id memo : Memo) (conf : SwapConf)
    (st : State)
    → find env.self (key_of recd.amount) st.swap_confs ≡ some conf
    → Payable reward conf
    → Kept st (after_claim env to recd reward ads_id memo conf st)
after_claim-Kept env to recd reward ads_id memo conf st e payable =
    let st' = after_claim env to recd reward ads_id memo conf st in
    let less : SwapConf = record conf {
      mine_token_remained = record {
        amount = conf.mine_token_remained.amount -ℤ reward.amount;
        symbol = conf.mine_token_remained.symbol;
      };
    } in
    let key = key_of recd.amount in
    let moved = total-modify left_in env.self key env.self less conf st.swap_confs e in
    (
      λ v. modify-Rows NonNegative env.self key env.self less st.swap_confs v (omega int_laws),
      move_total (held st) (held st') reward.amount conf.mine_token_remained.amount (paid st) moved,
    )

claim_reward-Kept :
    (env : Env) (to : Name) (recd : Asset) (checked : Bool) (ads_id memo : Memo) (st st' : State)
    → IsSdk env.sdk
    → claim_reward env to recd checked ads_id memo st ≡ ok st'
    → Kept st st'
claim_reward-Kept env to recd checked ads_id memo st st' laws h =
    let (conf, e, payable, final) =
      claim_reward-eq-ok env to recd checked ads_id memo st st' laws h in
    rw final (after_claim-Kept env to recd (reward_of checked conf) ads_id memo conf st e payable)

add_adsorder-Kept :
    (env : Env) (miner : Name) (q : Asset) (ads_id : Memo) (st st' : State)
    → add_adsorder env miner q ads_id st ≡ ok st'
    → Kept st st'
unfolding add_adsorder
add_adsorder-Kept env miner q ads_id st st' h = same-Kept st st' (ground arith) (ground arith)

take_deposit-Kept :
    (env : Env) (from : Name) (q : Asset) (memo : Memo) (st st' : State)
    → IsSdk env.sdk
    → take_deposit env from q memo st ≡ ok st'
    → Kept st st'
unfolding take_deposit
take_deposit-Kept env from q memo st st' laws h =
    elim (Option-cases (find env.self (key_of q.amount) st.swap_confs)) [
      | inl e ↦ absurd (ground arith)
      | inr (conf, e) ↦ elim (Result-cases (env.sdk.lt conf.mine_token_remained conf.swap_tokens)) [
        | inr (m, l) ↦ absurd (ground arith)
        | inl (short, l) ↦ elim (Bool-cases (is_ads_order q memo)) [
          | inl b ↦ add_adsorder-Kept env from q (get_ads_id memo) st st' (ground arith)
          | inr b ↦ claim_reward-Kept env from q false [] [] st st' laws (ground arith)
        ]
      ]
    ]

ontransfer-Kept :
    (env : Env) (from to : Name) (q : Asset) (memo : Memo) (st st' : State)
    → IsSdk env.sdk
    → ontransfer env from to q memo st ≡ ok st'
    → Kept st st'
unfolding ontransfer checked_deposit
ontransfer-Kept env from to q memo st st' laws h =
    elim (Bool-cases (from == env.self || not (to == env.self))) [
      | inl b ↦ same-Kept st st' (ground arith) (ground arith)
      | inr b ↦ elim (Result-cases (env.apl_sum from)) [
        | inr (m, a) ↦ absurd (ground arith)
        | inl (sum, a) ↦ elim (Bool-cases (env.token_blacklist from)) [
          | inl c ↦ same-Kept st st' (ground arith) (ground arith)
          | inr c ↦ take_deposit-Kept env from q memo st st' laws (ground arith)
        ]
      ]
    ]

-- Dropping an order leaves the rest.
drop_order-Kept :
    (env : Env) (order_id : ℕ) (st mid st' : State)
    → st' ≡ drop_order env order_id mid
    → Kept st mid
    → Kept st st'
drop_order-Kept env order_id st mid st' final k = rw final k

confirmads-Kept :
    (env : Env) (order_id : ℕ) (st st' : State)
    → IsSdk env.sdk
    → confirmads env order_id st ≡ ok st'
    → Kept st st'
unfolding confirmads
confirmads-Kept env order_id st st' laws h =
    elim (Option-cases (find env.self order_id st.ads_orders)) [
      | inl e ↦ absurd (ground arith)
      | inr (order, e) ↦
          elim (Result-cases
            (claim_reward env order.miner order.recd_apls true order.ads_id [] st)) [
              | inr (m, c) ↦ absurd (ground arith)
              | inl (mid, c) ↦ drop_order-Kept env order_id st mid st' (ground arith) (
                  claim_reward-Kept env order.miner order.recd_apls true order.ads_id [] st mid laws
                    c)
            ]
    ]

onswapexpird-Kept :
    (env : Env) (order_id : ℕ) (st st' : State)
    → IsSdk env.sdk
    → onswapexpird env order_id st ≡ ok st'
    → Kept st st'
unfolding onswapexpird
onswapexpird-Kept env order_id st st' laws h =
    elim (Option-cases (find env.self order_id st.ads_orders)) [
      | inl e ↦ absurd (ground arith)
      | inr (order, e) ↦
          elim (Result-cases (claim_reward env order.miner order.recd_apls false [] [] st)) [
            | inr (m, c) ↦ absurd (ground arith)
            | inl (mid, c) ↦
                drop_order-Kept env order_id st mid st' (ground arith)
                  (claim_reward-Kept env order.miner order.recd_apls false [] [] st mid laws c)
          ]
    ]

-- The actions that set what the rows offer.
abbrev pub sets_rows : Action → Bool
sets_rows (adds _ _) = true
sets_rows (sets _ _) = true
sets_rows (deletes _ _) = true
sets_rows _ = false

apply-Kept :
    (env : Env) (a : Action) (st st' : State)
    → IsSdk env.sdk
    → sets_rows a ≡ false
    → apply env a st ≡ ok st'
    → Kept st st'
unfolding apply init aplswaplog
apply-Kept env (inits a c s e) st st' laws n h = same-Kept st st' (ground arith) (ground arith)
apply-Kept env (deposits from to q memo) st st' laws n h =
    ontransfer-Kept env from to q memo (fresh st) st' laws h
apply-Kept env (confirms order_id) st st' laws n h =
    confirmads-Kept env order_id (fresh st) st' laws h
apply-Kept env (expires order_id) st st' laws n h =
    onswapexpird-Kept env order_id (fresh st) st' laws h
apply-Kept env (logs miner) st st' laws n h = same-Kept st st' (ground arith) (ground arith)
apply-Kept env (adds account conf) st st' laws n h = absurd (ground arith)
apply-Kept env (sets amount left) st st' laws n h = absurd (ground arith)
apply-Kept env (deletes account amount) st st' laws n h = absurd (ground arith)

-- A run of actions that go through, none of which sets what the rows offer.
pub data Run (start : State) : State → Type 0 where
  stay : Run start start
  step :
      (env : Env) (a : Action) {st st' : State}
      → Run start st
      → IsSdk env.sdk
      → sets_rows a ≡ false
      → apply env a st ≡ ok st'
      → Run start st'

-- Over any run of deposits, confirmations and expiries, where no row is set: each mined token that
-- is paid is taken from what the rows offer, and no row comes to offer less than nothing.
pub Run-Kept : (start : State) {st : State} → Run start st → Kept start st
Run-Kept start stay = (λ v. v, refl)
Run-Kept start (step env a {st} {st'} r laws n h) =
    let before = Run-Kept start r in
    let now = apply-Kept env a st st' laws n h in (λ v. now.0 (before.0 v), now.1 ∙ before.1)
