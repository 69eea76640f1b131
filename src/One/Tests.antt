-- ===== src/One/Tests.antt =====
-- A sale of amax.one with one row, a deposit swapped at once, and one that waits for its check.
use amax_contracts.Common.{ℕ, ◌≡◌, ◌≢◌, ◌⊎◌, inl, refl, true, false, [], ◌∷◌, arith, ok, err}
use amax_contracts.Common.Int.{pos, ◌-ℤ◌, ◌<ℤ◌}
use amax_contracts.Chain.{Name, Symbol, Asset, asset, Memo}
use amax_contracts.Chain.Sample.{signed_by, sdk-IsSdk}
use amax_contracts.One.{
  State, Env, apl_symbol, ontransfer, confirmads, onswapexpird, take_deposit, checked_deposit,
  claim_reward, add_adsorder, is_ads_order, transferred, logged,
}
use amax_contracts.One.Memos.{get_ads_id, split, split_from, trim, trim_left, trim_right}
use amax_contracts.One.Admin.{deposits, confirms, apply}
use amax_contracts.One.Swaps.{Kept, stay, step, Run-Kept}
use amax_contracts.One.Orders.{Settled, confirmads-Settled, settle_once}
use amax_contracts.One.Deposits.{Taken, ontransfer-Taken}

abbrev mined : Symbol
mined = record { code = 77; precision = 8 }

abbrev env : Env
env = record {
  chain = signed_by 50 (1 ∷ []) 20000000;
  apl_sum = λ account. ok (asset (pos 2000000) apl_symbol);
  token_blacklist = λ account. false;
}

-- A sale, managed by 1, from second 10 to second 100, whose one row has `left` mined tokens.
abbrev sale : ℕ → State
sale left = record {
  global = record {
    mine_token_contract = 60;
    admin = 1;
    last_order_id = 0;
    started_at = 10;
    ended_at = 100;
  };
  swap_confs =
      record {
        scope = 50;
        key = 1000000;
        payer = 50;
        row = record {
          swap_amount = 1000000;
          swap_tokens = asset (pos 300) mined;
          swap_tokens_after_adscheck = asset (pos 400) mined;
          mine_token_total = asset (pos 1000) mined;
          mine_token_remained = asset (pos left) mined;
        };
      }
      ∷ [];
  ads_orders = [];
  sent = [];
  recipients = [];
}

-- " adsid:ab cd " has no advertisement, "adsid: 11111 " has 11111.
no_ads : get_ads_id (32 ∷ 97 ∷ 100 ∷ 115 ∷ 105 ∷ 100 ∷ 58 ∷ 97 ∷ []) ≡ []
unfolding get_ads_id
no_ads = refl

abbrev with_ads : Memo
with_ads = 97 ∷ 100 ∷ 115 ∷ 105 ∷ 100 ∷ 58 ∷ 32 ∷ 49 ∷ 49 ∷ 49 ∷ 49 ∷ 49 ∷ 32 ∷ []

reads_ads : get_ads_id with_ads ≡ 49 ∷ 49 ∷ 49 ∷ 49 ∷ 49 ∷ []
unfolding get_ads_id split split_from trim trim_left trim_right
reads_ads = refl

abbrev deposit : Asset
deposit = asset (pos 1000000) apl_symbol

abbrev swapped : State
swapped = record (sale 700) {
  sent =
      logged 7 deposit (asset (pos 300) mined) [] 20000000
      ∷ transferred 60 7 (asset (pos 300) mined) []
      ∷ [];
}

abbrev waiting : State
waiting = record (sale 1000) {
  global = record (sale 1000).global { last_order_id = 1 };
  ads_orders =
      record {
        scope = 50;
        key = 1;
        payer = 50;
        row = record {
          id = 1;
          miner = 7;
          ads_id = 49 ∷ 49 ∷ 49 ∷ 49 ∷ 49 ∷ [];
          recd_apls = deposit;
          created_at = 20;
          expired_at = 3620;
        };
      }
      ∷ [];
}

abbrev confirmed : State
confirmed = record (sale 600) {
  global = record (sale 1000).global { last_order_id = 1 };
  sent =
      logged 7 deposit (asset (pos 400) mined) (49 ∷ 49 ∷ 49 ∷ 49 ∷ 49 ∷ []) 20000000
      ∷ transferred 60 7 (asset (pos 400) mined) []
      ∷ [];
}

swaps_at_once : ontransfer env 7 50 deposit [] (sale 1000) ≡ ok swapped
unfolding ontransfer checked_deposit take_deposit claim_reward is_ads_order ◌-ℤ◌ get_ads_id
swaps_at_once = refl

waits : ontransfer env 7 50 deposit with_ads (sale 1000) ≡ ok waiting
unfolding ontransfer checked_deposit take_deposit add_adsorder claim_reward is_ads_order ◌-ℤ◌
    get_ads_id split split_from trim trim_left trim_right
waits = refl

confirms_1 : confirmads env 1 waiting ≡ ok confirmed
unfolding confirmads claim_reward ◌-ℤ◌
confirms_1 = refl

abbrev miner : Name
miner = 7

miner_ne : miner ≢ env.self
miner_ne = omega arith

Run-Kept_example : Kept (sale 1000) confirmed
unfolding apply
Run-Kept_example = Run-Kept (sale 1000) (
    step env (confirms 1) (step env (deposits 7 50 deposit with_ads) stay sdk-IsSdk refl waits)
      sdk-IsSdk refl confirms_1)

ontransfer-Taken_example :
    (pos 0 <ℤ deposit.amount)
    × ((sum : Asset) × (env.apl_sum 7 ≡ ok sum) × (sum.amount <ℤ pos 10000000))
    × (((env.token_blacklist 7 ≡ true) × (swapped ≡ sale 1000))
        ⊎ ((env.token_blacklist 7 ≡ false) × Taken env 7 deposit [] (sale 1000) swapped))
ontransfer-Taken_example =
    ontransfer-Taken env 7 50 deposit [] (sale 1000) swapped sdk-IsSdk miner_ne refl swaps_at_once

confirmads-Settled_example :
    (env.has_auth 1 ≡ true)
    × Settled
        (λ conf. conf.swap_tokens_after_adscheck)
        (λ order. order.ads_id)
        env
        1
        waiting
        confirmed
confirmads-Settled_example = confirmads-Settled env 1 waiting confirmed sdk-IsSdk confirms_1

settle_once_example :
    (confirmads env 1 confirmed ≡ err "order_id not existed")
    × (onswapexpird env 1 confirmed ≡ err "order_id not existed")
settle_once_example =
    settle_once env env 1 waiting confirmed sdk-IsSdk refl (tt, refl, tt) (inl confirms_1) refl
