-- ===== src/Msig.antt =====
-- src_system/contracts/amax.msig: proposals, approvals, the time lock and execution of `class
-- multisig`. A packed transaction is its bytes; what the SDK reads from them, the hash, and the
-- chain's authorization check are the parameter `Transactions`.
pub mod Operations
pub mod Approvals
pub mod Executions
pub mod Invalidations
pub mod Pairing
pub mod Reachable
mod Tests
use amax_contracts.Common.{
  ℕ, ◌+◌, ◌*◌, ◌/◌, Bool, true, false, not, ◌&&◌, ◌||◌, ◌==◌, ltb, leb, if◌then◌else◌, Option, none,
  some, List, [], ◌∷◌, ◌++◌, map, Result, ok, err, ◌>>=◌, ◌>>◌, check, or_err, String,
}
use amax_contracts.Chain.{Name, Context, require_auth}
use amax_contracts.Chain.Table.{Table, find, contains, emplace, modify, modify_same, erase}

pub record PermissionLevel : Type 0 where
  pub actor : Name
  pub permission : Name

abbrev pub level_eq : PermissionLevel → PermissionLevel → Bool
level_eq l m = l.actor == m.actor && l.permission == m.permission

abbrev pub Bytes : Type 0
Bytes = List ℕ

-- `eosio::transaction_header`, as far as it is read: seconds since the epoch, and a delay.
pub record TransactionHeader : Type 0 where
  pub expiration : ℕ
  pub delay_sec : ℕ

-- What is read from a packed transaction, which aborts on other bytes, and the chain's functions.
pub record Transactions : Type 0 where
  pub header : Bytes → Result TransactionHeader
  pub context_free_empty : Bytes → Result Bool
  pub actions : Bytes → Result (List Bytes)
  pub has_sha256 : Bytes → Bytes → Bool
  pub is_authorized : Bytes → List PermissionLevel → Bool

-- `struct proposal`; the binary extension is missing in rows of an older version.
pub record Proposal : Type 0 where
  pub proposal_name : Name
  pub packed_transaction : Bytes
  pub earliest_exec_time : Option ℕ

-- `struct approval`
pub record Approval : Type 0 where
  pub level : PermissionLevel
  pub time : ℕ

-- `struct approvals_info`
pub record ApprovalsInfo : Type 0 where
  pub version : ℕ
  pub proposal_name : Name
  pub requested_approvals : List Approval
  pub provided_approvals : List Approval

-- `struct invalidation`
pub record Invalidation : Type 0 where
  pub account : Name
  pub last_invalidation_time : ℕ

-- The tables, proposals and approvals in the scope of the proposer, and the actions sent.
pub record State : Type 0 where
  pub proposals : Table Proposal
  pub approvals : Table ApprovalsInfo
  pub invalidations : Table Invalidation
  pub sent : List Bytes

-- The chain; `has_level` is who has signed with which permission.
pub record Env : Type 0 where
  pub chain : Context
  pub open chain use *
  pub has_level : PermissionLevel → Bool
  pub transactions : Transactions
  pub open transactions use *

-- `eosio::time_point_sec(current_time_point())`
abbrev pub now_sec : Env → ℕ
now_sec env = env.now / 1000000

-- The test in the loop of `get_approvals_and_adjust_table`: the approval is later than the last
-- invalidation of its account.
abbrev pub counts : Option Invalidation → Approval → Bool
counts none permission = true
counts (some i) permission = ltb i.last_invalidation_time permission.time

unfoldable pub still_valid : Env → State → List Approval → List PermissionLevel
still_valid env st [] = []
still_valid env st (permission ∷ rest) =
    (if counts (find env.self permission.level.actor st.invalidations) permission
      then permission.level ∷ []
      else [])
    ++ still_valid env st rest

-- `get_approvals_and_adjust_table`; its `table_op` is left to the caller.
unfoldable pub get_approvals : Env → Name → Name → State → Result (List PermissionLevel)
get_approvals env proposer proposal_name st = do
  apps ← or_err (find proposer proposal_name st.approvals) "proposal not found"
  ok (still_valid env st apps.provided_approvals)

abbrev pub unapproved : PermissionLevel → Approval
unapproved level = record { level = level; time = 0 }

unfoldable pub propose : Env → Name → Name → List PermissionLevel → Bytes → State → Result State
propose env proposer proposal_name requested trx st = do
  require_auth env.chain proposer
  trx_header ← env.header trx
  check (leb (now_sec env) trx_header.expiration) "transaction expired"
  no_context_free ← env.context_free_empty trx
  check no_context_free "not allowed to `propose` a transaction with context-free actions"
  check (not (contains proposer proposal_name st.proposals)) "proposal with the same name exists"
  check (env.is_authorized trx requested) "transaction authorization failed"
  let prop : Proposal = record {
    proposal_name = proposal_name;
    packed_transaction = trx;
    earliest_exec_time = some 0;
  }
  props ← emplace proposer proposal_name proposer prop st.proposals
  let info : ApprovalsInfo = record {
    version = 1;
    proposal_name = proposal_name;
    requested_approvals = map unapproved requested;
    provided_approvals = [];
  }
  apps ← emplace proposer proposal_name proposer info st.approvals
  ok (record st { proposals = props; approvals = apps })

-- `std::find_if` and `erase`: a list without its first approval at a level, if there is one.
unfoldable pub erase_level : PermissionLevel → List Approval → Option (List Approval)
erase_level level [] = none
erase_level level (a ∷ rest) =
    let later = erase_level level rest in
    if level_eq a.level level
    then some rest
    else elim later [ none ↦ none | some others ↦ some (a ∷ others) ]

abbrev pub set_time : Name → Name → Proposal → ℕ → State → State
set_time proposer proposal_name prop time st = record st {
  proposals =
      modify_same proposer proposal_name (record prop { earliest_exec_time = some time })
        st.proposals;
}

-- The last part of `approve`: it starts the time lock of a delayed transaction, once authorized.
unfoldable pub lock_if_authorized : Env → Name → Name → Proposal → ℕ → State → Result State
lock_if_authorized env proposer proposal_name prop delay_sec st = do
  levels ← get_approvals env proposer proposal_name st
  ok (
      if env.is_authorized prop.packed_transaction levels
      then set_time proposer proposal_name prop (env.now + delay_sec * 1000000) st
      else st)

abbrev pub old_proposal : String
old_proposal = "old proposals are not allowed to have non-zero `delay_sec`; cancel and retry"

unfoldable pub start_lock :
    Env → Name → Name → Proposal → TransactionHeader → Option ℕ → State → Result State
start_lock env proposer proposal_name prop trx_header none st = do
  check (trx_header.delay_sec == 0) old_proposal
  ok st
start_lock env proposer proposal_name prop trx_header (some time) st =
    if not (trx_header.delay_sec == 0) && time == 0
    then lock_if_authorized env proposer proposal_name prop trx_header.delay_sec st
    else ok st

-- The hash of `approve` is optional.
abbrev pub hash_fits : Env → Bytes → Option Bytes → Bool
hash_fits env trx none = true
hash_fits env trx (some hash) = env.has_sha256 trx hash
