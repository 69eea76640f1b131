-- ===== src/Reward.antt =====
-- src_system/contracts/amax.reward: the tables of `class amax_reward`, the rewards per vote, and the
-- loop that shares a producer's rewards out to a voter. Payments are collected in the state.
pub mod Merge
pub mod Operations
pub mod Rows
pub mod Allotments
pub mod Solvency
pub mod Runs
pub mod Weights
pub mod Ballots
pub mod Tallies
pub mod Elections
pub mod Limits
mod Tests
use amax_contracts.Common.{
  ℕ, ◌+◌, ◌-◌, ◌*◌, ◌%◌, ◌^◌, Bool, true, false, not, ◌&&◌, ltb, leb, if◌then◌else◌, Option, none,
  some, List, [], ◌∷◌, Result, ok, ◌>>=◌, ◌>>◌, check, or_err,
}
use amax_contracts.Common.Int.{
  ℤ, pos, negsuc, sub_ℕ, pos_part, neg_part, ◌+ℤ◌, ◌-ℤ◌, ◌*ℤ◌, ◌/ℤ◌, ltb_ℤ, leb_ℤ,
}
use amax_contracts.Chain.{Name, Symbol, Asset, asset, Context}
use amax_contracts.Chain.Table.{Table, find, emplace, modify, modify_same}

abbrev pub vote_symbol : Symbol
vote_symbol = record { code = 0x45544f56; precision = 4 }

abbrev pub vote_asset_0 : Asset
vote_asset_0 = asset (pos 0) vote_symbol

-- 10 ^ 18
abbrev pub high_precision : ℤ
high_precision = pos 1000000000000000000

-- `struct producer`, under its owner. Rewards per vote are 128-bit integers.
pub record Producer : Type 0 where
  pub owner : Name
  pub is_registered : Bool
  pub total_rewards : Asset
  pub allocating_rewards : Asset
  pub allocated_rewards : Asset
  pub votes : Asset
  pub rewards_per_vote : ℤ
  pub update_at : ℕ

-- An entry of `voted_producer_map`: a producer, and its rewards per vote when they were last shared.
pub record VotedProducer : Type 0 where
  pub producer : Name
  pub last_rewards_per_vote : ℤ

-- `struct voter`, under its owner. The map is the list of its entries in the order of their names.
pub record Voter : Type 0 where
  pub owner : Name
  pub votes : Asset
  pub producers : List VotedProducer
  pub unclaimed_rewards : Asset
  pub claimed_rewards : Asset
  pub update_at : ℕ

-- A transfer of the core token out of the contract.
pub record Payment : Type 0 where
  pub to : Name
  pub quantity : Asset

pub record State : Type 0 where
  pub total_rewards : Asset
  pub producers : Table Producer
  pub voters : Table Voter
  pub sent : List Payment

-- The chain, with the core symbol that the system contract keeps, and the time of the block as the
-- chain stamps it.
pub record Env : Type 0 where
  pub chain : Context
  pub open chain use *
  pub core_symbol : Symbol
  pub block_time : ℕ

abbrev pub core_0 : Env → Asset
core_0 env = asset (pos 0) env.core_symbol

-- The rows as their constructors leave them.
abbrev pub new_producer : Env → Name → Producer
new_producer env owner = record {
  owner = owner;
  is_registered = false;
  total_rewards = core_0 env;
  allocating_rewards = core_0 env;
  allocated_rewards = core_0 env;
  votes = vote_asset_0;
  rewards_per_vote = pos 0;
  update_at = 0;
}

abbrev pub new_voter : Env → Name → Voter
new_voter env owner = record {
  owner = owner;
  votes = vote_asset_0;
  producers = [];
  unclaimed_rewards = core_0 env;
  claimed_rewards = core_0 env;
  update_at = 0;
}

-- A result of 128-bit arithmetic: the integer of the same residue from -2^127 to 2^127 - 1.
abbrev residue : ℕ → ℤ
residue n = if ltb n (2 ^ 127) then pos n else sub_ℕ n (2 ^ 128)

unfoldable pub to_int128 : ℤ → ℤ
to_int128 z = residue ((pos_part z + (2 ^ 128 - neg_part z % 2 ^ 128)) % 2 ^ 128)

-- The new rewards per vote, or the old where there are no votes.
unfoldable pub calc_rewards_per_vote : ℤ → Asset → Asset → Result ℤ
calc_rewards_per_vote old_rewards_per_vote rewards votes = do
  check (leb_ℤ (pos 0) rewards.amount && leb_ℤ (pos 0) votes.amount)
      "rewards.amount >= 0 && votes.amount >= 0"
  let raised =
      to_int128
        (old_rewards_per_vote +ℤ to_int128 (rewards.amount *ℤ high_precision) /ℤ votes.amount)
  let new_rewards_per_vote =
      if ltb_ℤ (pos 0) rewards.amount && ltb_ℤ (pos 0) votes.amount
      then raised
      else old_rewards_per_vote
  check (leb_ℤ old_rewards_per_vote new_rewards_per_vote) "calculated rewards_per_vote overflow"
  ok new_rewards_per_vote

abbrev pub max_int64 : ℤ
max_int64 = pos 0x7fffffffffffffff

unfoldable pub calc_voter_rewards : Env → Asset → ℤ → Result Asset
calc_voter_rewards env votes rewards_per_vote = do
  check (leb_ℤ (pos 0) votes.amount && leb_ℤ (pos 0) rewards_per_vote)
      "votes.amount >= 0 && rewards_per_vote >= 0"
  let product = to_int128 (votes.amount *ℤ rewards_per_vote)
  check (leb_ℤ rewards_per_vote product) "calculated rewards overflow"
  let rewards = product /ℤ high_precision
  check (leb_ℤ (pos 0) rewards && leb_ℤ rewards max_int64) "calculated rewards overflow"
  env.sdk.make rewards env.core_symbol

-- `db::set` with a payer for a new row: the row of a key is added, or replaced.
abbrev pub set_row : {R : Type 0} → Option R → Name → ℕ → Name → R → Table R → Result (Table R)
set_row none self key payer row rows = emplace self key payer row rows
set_row (some _) self key payer row rows = ok (modify_same self key row rows)

abbrev pub set_row_paid : {R : Type 0} → Option R → Name → ℕ → Name → R → Table R → Result (Table R)
set_row_paid none self key payer row rows = emplace self key payer row rows
set_row_paid (some _) self key payer row rows = ok (modify self key payer row rows)

abbrev pub row_or : {R : Type 0} → Option R → R → R
row_or none fallback = fallback
row_or (some row) fallback = row

-- What one round of the loop works on: the producer's row, and the voter's unclaimed rewards.
pub record Share : Type 0 where
  pub row : Producer
  pub allocated : Asset

-- New rewards move from the producer's row to the voter.
unfoldable pub move_rewards : Env → Asset → Producer → Asset → Result Share
move_rewards env new_rewards p allocated = do
  short ← env.sdk.lt p.allocating_rewards new_rewards
  check (not short) "producer allocating rewards insufficient"
  allocating ← env.sdk.sub p.allocating_rewards new_rewards
  allocated_rewards ← env.sdk.add p.allocated_rewards new_rewards
  sum ← env.sdk.add allocating allocated_rewards
  same ← env.sdk.eq p.total_rewards sum
  check same "p.total_rewards == p.allocating_rewards + p.allocated_rewards"
  out ← env.sdk.add allocated new_rewards
  ok (record {
    row = record p { allocating_rewards = allocating; allocated_rewards = allocated_rewards };
    allocated = out;
  })

-- The rewards since the voter's last share, where there are any.
unfoldable pub share_rewards : Env → Asset → ℤ → Producer → Asset → Result Share
share_rewards env votes_old last p allocated = do
  many ← env.sdk.lt p.votes votes_old
  check (not many) "votes_old <= p.votes"
  new_rewards ← calc_voter_rewards env votes_old (p.rewards_per_vote -ℤ last)
  move_rewards env new_rewards p allocated

unfoldable pub allot : Env → Asset → Asset → ℤ → Producer → Asset → Result Share
allot env votes_old votes_delta last p allocated = do
  check (leb_ℤ last p.rewards_per_vote) "last_rewards_per_vote invalid"
  shared ←
      if ltb_ℤ (pos 0) (p.rewards_per_vote -ℤ last) && ltb_ℤ (pos 0) votes_old.amount
      then share_rewards env votes_old last p allocated
      else ok (record { row = p; allocated = allocated })
  votes ← env.sdk.add shared.row.votes votes_delta
  check (leb_ℤ (pos 0) votes.amount) "producer votes can not be negtive"
  ok (record shared { row = record shared.row { votes = votes; update_at = env.block_time } })

-- The loop's variables: the voter's map, the table of producers, and the unclaimed rewards.
pub record Allotted : Type 0 where
  pub voted : List VotedProducer
  pub producers : Table Producer
  pub allocated : Asset

-- `allocate_producer_rewards`
unfoldable pub allocate :
    Env → Asset → Asset → Name → List VotedProducer → Table Producer → Asset → Result Allotted
allocate env votes_old votes_delta new_payer [] rows allocated =
    ok (record { voted = []; producers = rows; allocated = allocated })
allocate env votes_old votes_delta new_payer (v ∷ vs) rows allocated = do
  let old = find env.self v.producer rows
  shared ←
      allot env votes_old votes_delta v.last_rewards_per_vote
        (row_or old (new_producer env v.producer)) allocated
  rows' ← set_row old env.self v.producer new_payer shared.row rows
  rest ← allocate env votes_old votes_delta new_payer vs rows' shared.allocated
  ok (record rest {
    voted = record v { last_rewards_per_vote = shared.row.rewards_per_vote } ∷ rest.voted;
  })
