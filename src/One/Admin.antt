-- ===== src/One/Admin.antt =====
-- The actions of amax.one that set it up, `aplswaplog`, and the dispatch.
use amax_contracts.Common.{
  ℕ, Bool, not, ◌||◌, ◌==◌, ◌∷◌, [], Result, ok, ◌>>=◌, ◌>>◌, check, or_err,
}
use amax_contracts.Chain.{Name, Asset, require_auth, Memo}
use amax_contracts.Chain.Table.{find, contains, emplace, modify, erase}
use amax_contracts.One.{SwapConf, State, Env, ontransfer, confirmads, onswapexpird}

unfoldable pub init : Env → Name → Name → ℕ → ℕ → State → Result State
init env admin mine_token_contract started_at ended_at st = do
  require_auth env.chain env.self
  ok (record st {
    global = record st.global {
      admin = admin;
      mine_token_contract = mine_token_contract;
      started_at = started_at;
      ended_at = ended_at;
    };
  })

-- The log itself is only seen in a trace.
unfoldable pub aplswaplog : Env → Name → State → Result State
aplswaplog env miner st = do
  require_auth env.chain env.self
  ok (record st { recipients = miner ∷ st.recipients })

abbrev is_manager : Env → Name → State → Bool
is_manager env account st = account == env.self || account == st.global.admin

pub addswapconf : Env → Name → SwapConf → State → Result State
addswapconf env account conf st = do
  require_auth env.chain account
  check (is_manager env account st) "no auth for operate"
  check (not (contains env.self conf.swap_amount st.swap_confs)) "swap conf already existed"
  rows ← emplace env.self conf.swap_amount env.self conf st.swap_confs
  ok (record st { swap_confs = rows })

pub setremained : Env → ℕ → Asset → State → Result State
setremained env swap_amount amount st = do
  require_auth env.chain env.self
  conf ← or_err (find env.self swap_amount st.swap_confs) "swap conf not existing"
  ok (record st {
    swap_confs =
        modify env.self swap_amount env.self (record conf { mine_token_remained = amount })
          st.swap_confs;
  })

pub delswapconf : Env → Name → ℕ → State → Result State
delswapconf env account amount st = do
  require_auth env.chain account
  check (is_manager env account st) "no auth for operate"
  check (contains env.self amount st.swap_confs) "swap conf not found"
  ok (record st { swap_confs = erase env.self amount st.swap_confs })

-- The actions and the notification that the contract dispatches.
pub data Action : Type 0 where
  inits : Name → Name → ℕ → ℕ → Action
  deposits : Name → Name → Asset → Memo → Action
  confirms : ℕ → Action
  expires : ℕ → Action
  logs : Name → Action
  adds : Name → SwapConf → Action
  sets : ℕ → Asset → Action
  deletes : Name → ℕ → Action

-- An action starts with nobody notified.
abbrev pub fresh : State → State
fresh st = record st { recipients = [] }

unfoldable pub apply : Env → Action → State → Result State
apply env (inits a c s e) st = init env a c s e (fresh st)
apply env (deposits from to q memo) st = ontransfer env from to q memo (fresh st)
apply env (confirms order_id) st = confirmads env order_id (fresh st)
apply env (expires order_id) st = onswapexpird env order_id (fresh st)
apply env (logs miner) st = aplswaplog env miner (fresh st)
apply env (adds account conf) st = addswapconf env account conf (fresh st)
apply env (sets amount left) st = setremained env amount left (fresh st)
apply env (deletes account amount) st = delswapconf env account amount (fresh st)
