-- ===== src/Reward/Operations.antt =====
-- The actions of amax.reward, and their dispatch.
use amax_contracts.Common.{
  ◌==◌, Bool, true, false, not, ◌&&◌, if◌then◌else◌, Option, List, ◌∷◌, Result, ok, ◌>>=◌, ◌>>◌,
  check, or_err,
}
use amax_contracts.Common.Int.{pos, ltb_ℤ, leb_ℤ}
use amax_contracts.Chain.{Name, Asset, asset, symbol_eq, require_auth}
use amax_contracts.Chain.Names
use amax_contracts.Chain.Table.{Table, find, modify, modify_same}
use amax_contracts.Reward.{
  vote_symbol, vote_asset_0, Producer, Voter, State, Env, new_producer, new_voter,
  calc_rewards_per_vote, set_row_paid, row_or, allocate,
}
use amax_contracts.Reward.Merge.{compare_votes, emplace_all, is_sorted}

unfoldable pub regproducer : Env → Name → State → Result State
regproducer env producer st = do
  require_auth env.chain producer
  check (env.is_account producer) "producer account not found"
  let old = find env.self producer st.producers
  let row : Producer = record (row_or old (new_producer env producer)) {
    is_registered = true;
    update_at = env.block_time;
  }
  rows ← set_row_paid old env.self producer producer row st.producers
  ok (record st { producers = rows })

abbrev pub set_voter : Env → Option Voter → Name → Voter → Table Producer → State → Result State
set_voter env old voter row producers st = do
  rows ← set_row_paid old env.self voter voter row st.voters
  ok (record st { producers = producers; voters = rows })

-- The change of a vote; taking votes away needs them.
unfoldable pub votes_delta : Env → Asset → Asset → Bool → Result Asset
votes_delta env held votes true = ok votes
votes_delta env held votes false = do
  few ← env.sdk.lt held votes
  check (not few) "voter's votes insufficent"
  ok (env.sdk.neg votes)

unfoldable pub change_vote : Env → Name → Asset → Bool → State → Result State
change_vote env voter votes is_adding st = do
  require_auth env.chain Names.amax
  require_auth env.chain voter
  check (symbol_eq votes.symbol vote_symbol) "votes symbol mismatch"
  check (ltb_ℤ (pos 0) votes.amount) "votes must be positive"
  let old = find env.self voter st.voters
  let v = row_or old (new_voter env voter)
  delta ← votes_delta env v.votes votes is_adding
  done ← allocate env v.votes delta voter v.producers st.producers v.unclaimed_rewards
  sum ← env.sdk.add v.votes delta
  check (leb_ℤ (pos 0) sum.amount) "voter's votes can not be negative"
  let row : Voter = record v {
    votes = sum;
    producers = done.voted;
    unclaimed_rewards = done.allocated;
    update_at = env.block_time;
  }
  set_voter env old voter row done.producers st

abbrev pub addvote : Env → Name → Asset → State → Result State
addvote env voter votes st = change_vote env voter votes true st

abbrev pub subvote : Env → Name → Asset → State → Result State
subvote env voter votes st = change_vote env voter votes false st

unfoldable pub voteproducer : Env → Name → List Name → State → Result State
voteproducer env voter producers st = do
  require_auth env.chain Names.amax
  require_auth env.chain voter
  check (is_sorted producers) "producer votes must be uniqued and sorted"
  let old = find env.self voter st.voters
  let v = row_or old (new_voter env voter)
  let changes = compare_votes v.producers producers
  removed ←
      allocate env v.votes (env.sdk.neg v.votes) voter changes.removed st.producers
        v.unclaimed_rewards
  kept ← allocate env v.votes vote_asset_0 voter changes.kept removed.producers removed.allocated
  added ← allocate env vote_asset_0 v.votes voter changes.added kept.producers kept.allocated
  let row : Voter = record v {
    producers = emplace_all added.voted kept.voted;
    unclaimed_rewards = added.allocated;
    update_at = env.block_time;
  }
  set_voter env old voter row added.producers st

-- The part that `claimrewards` and `claimfor` share.
unfoldable pub pay_rewards : Env → Name → State → Result State
pay_rewards env voter st = do
  v ← or_err (find env.self voter st.voters) "voter info not found"
  check (ltb_ℤ (pos 0) v.votes.amount) "voter's votes must be positive"
  done ← allocate env v.votes vote_asset_0 voter v.producers st.producers v.unclaimed_rewards
  check (ltb_ℤ (pos 0) done.allocated.amount) "no rewards to claim"
  claimed ← env.sdk.add v.claimed_rewards done.allocated
  let row : Voter = record v {
    producers = done.voted;
    unclaimed_rewards = asset (pos 0) done.allocated.symbol;
    claimed_rewards = claimed;
    update_at = env.block_time;
  }
  ok (record st {
    producers = done.producers;
    voters = modify env.self voter voter row st.voters;
    sent = record { to = voter; quantity = done.allocated } ∷ st.sent;
  })

unfoldable pub claimrewards : Env → Name → State → Result State
claimrewards env voter st = do require_auth env.chain voter; pay_rewards env voter st

unfoldable pub claimfor : Env → Name → Name → State → Result State
claimfor env submitter voter st = do require_auth env.chain submitter; pay_rewards env voter st

-- `ontransfer`, of a transfer of the core token to the contract.
unfoldable pub add_rewards : Env → Name → Asset → State → Result State
add_rewards env from quantity st = do
  total ← env.sdk.add st.total_rewards quantity
  p ← or_err (find env.self from st.producers) "producer(from) not found"
  check p.is_registered "producer(from) not registered"
  total_rewards ← env.sdk.add p.total_rewards quantity
  allocating ← env.sdk.add p.allocating_rewards quantity
  raised ← calc_rewards_per_vote p.rewards_per_vote quantity p.votes
  let row : Producer = record p {
    total_rewards = total_rewards;
    allocating_rewards = allocating;
    rewards_per_vote = raised;
    update_at = env.block_time;
  }
  ok (record st { total_rewards = total; producers = modify_same env.self from row st.producers })

unfoldable pub ontransfer : Env → Name → Name → Asset → State → Result State
ontransfer env from to quantity st =
    if env.first_receiver == Names.amax_token
      && symbol_eq quantity.symbol env.core_symbol
      && not (from == env.self)
      && to == env.self
    then add_rewards env from quantity st
    else ok st

-- The actions and the notification that the contract dispatches.
pub data Action : Type 0 where
  registers : Name → Action
  adds : Name → Asset → Action
  subtracts : Name → Asset → Action
  votes_for : Name → List Name → Action
  claims : Name → Action
  claims_for : Name → Name → Action
  receives : Name → Name → Asset → Action

unfoldable pub apply : Env → Action → State → Result State
apply env (registers producer) st = regproducer env producer st
apply env (adds voter votes) st = addvote env voter votes st
apply env (subtracts voter votes) st = subvote env voter votes st
apply env (votes_for voter producers) st = voteproducer env voter producers st
apply env (claims voter) st = claimrewards env voter st
apply env (claims_for submitter voter) st = claimfor env submitter voter st
apply env (receives from to quantity) st = ontransfer env from to quantity st
