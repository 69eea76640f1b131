-- ===== src/System/Elect/Queue.antt =====
-- The queues of the main and the backup producers, in
-- src_system/contracts/amax.system/src/voting.cpp: the places in the index of producers that
-- `process_elected_producer` keeps, and what it reads there.
pub mod Process
pub mod Steps
pub mod Places
pub mod Nets
pub mod Balance
pub mod Steady
pub mod Moves
pub mod Backup
pub mod Joins
pub mod Lengths
mod Tests
use amax_contracts.Common.{
  ℕ, ◌+◌, ◌-◌, ◌%◌, ◌^◌, Bool, true, false, not, ◌&&◌, ◌==◌, ltb, leb, if◌then◌else◌, Option, none,
  some, List, [], ◌∷◌, Result, ok, err, ◌>>=◌, ◌>>◌, check,
}
use amax_contracts.Common.Int.{pos, ltb_ℤ}
use amax_contracts.Chain.{Name, Asset, Sdk}
use amax_contracts.System.Elect.{ElectedInfo, less, larger, by_elected_prod}
use amax_contracts.System.Elect.Changes.{Entry, add, modify, del}

-- `struct producer_elected_queue`
pub record Queue (A : Type 0) : Type 0 where
  pub last_producer_count : ℕ
  pub tail : ElectedInfo A
  pub tail_prev : ElectedInfo A
  pub tail_next : ElectedInfo A

-- An entry of the index `electedprod`, which the chain sorts by key.
pub record Indexed (A : Type 0) : Type 0 where
  pub key : ℕ
  pub info : ElectedInfo A
  pub has_ext : Bool

-- The slice of the global state that is read, the index, and what signing authorities have.
pub record Env (A : Type 0) : Type 0 where
  pub sdk : Sdk
  pub is_init : Bool
  pub max_main_producer_count : ℕ
  pub max_backup_producer_count : ℕ
  pub min_producer_votes : Asset
  pub index : List (Indexed A)
  pub authority_eq : A → A → Bool
  pub no_authority : A

-- The queues, the changes, and what is to be refreshed at the end.
pub record Work (A : Type 0) : Type 0 where
  pub meq : Queue A
  pub beq : Queue A
  pub main_changes : List (Entry A)
  pub backup_changes : List (Entry A)
  pub refresh_main_tail_prev : Bool
  pub refresh_main_tail_next : Bool
  pub refresh_backup_tail_prev : Bool
  pub refresh_backup_tail_next : Bool

abbrev pub min_backup_producer_count : ℕ
min_backup_producer_count = 3

-- `++` and `--` of a `uint32_t`
abbrev pub incremented : ℕ → ℕ
incremented n = (n + 1) % 2 ^ 32

abbrev pub decremented : ℕ → ℕ
decremented n = (n + 2 ^ 32 - 1) % 2 ^ 32

module _ {A : Type 0} where
  -- `producer_elected_info::clear` and `empty`
  abbrev pub cleared : Env A → ElectedInfo A → ElectedInfo A
  cleared env p = record {
    name = 0;
    is_active = true;
    elected_votes = record p.elected_votes { amount = pos 0 };
    authority = env.no_authority;
  }

  abbrev pub is_empty : ElectedInfo A → Bool
  is_empty p = p.name == 0

  -- `is_prod_votes_valid`
  unfoldable pub is_prod_votes_valid : Env A → ElectedInfo A → Result Bool
  is_prod_votes_valid env p =
      if ltb_ℤ (pos 0) p.elected_votes.amount
      then (do few ← env.sdk.lt p.elected_votes env.min_producer_votes; ok (not few))
      else ok false

  -- What `lower_bound` finds: the entries from a key on, and the one before them.
  abbrev pub lower_bound :
      ℕ → Option (Indexed A) → List (Indexed A) → Option (Indexed A) × List (Indexed A)
  lower_bound k before [] = (before, [])
  lower_bound k before (e ∷ l) = if leb k e.key then (before, e ∷ l) else lower_bound k (some e) l

  -- `get_pos_itr`: the entry before that of `prod`, and those behind it.
  abbrev pub at_pos :
      Env A
      → ElectedInfo A
      → Option (Indexed A) × List (Indexed A)
      → Result (Option (Indexed A) × List (Indexed A))
  at_pos env prod (before, []) = err "producer elected position not found"
  at_pos env prod (before, e ∷ l) = do
    check (e.info.name == prod.name) "producer elected position not found"
    equal ← env.sdk.eq e.info.elected_votes prod.elected_votes
    check equal "itr->get_elected_votes() == prod.elected_votes"
    ok (before, l)

  unfoldable pub get_pos : Env A → ElectedInfo A → Result (Option (Indexed A) × List (Indexed A))
  get_pos env prod = do
    k ← by_elected_prod prod.name prod.is_active prod.elected_votes
    at_pos env prod (lower_bound k none env.index)

  -- `get_elected_info` leaves `is_active` as it was.
  abbrev pub get_elected_info : Indexed A → ElectedInfo A → ElectedInfo A
  get_elected_info e p = record e.info { is_active = p.is_active }

  abbrev pub take_prev :
      Env A → ElectedInfo A → ElectedInfo A → Option (Indexed A) → Result (ElectedInfo A)
  take_prev env tail prev none = err "prev not found"
  take_prev env tail prev (some e) = do
    lower ← less env.sdk tail (get_elected_info e prev)
    check lower "tail < prev"
    ok (get_elected_info e prev)

  -- `fetch_prev`, which is always called to check.
  unfoldable pub fetch_prev : Env A → ElectedInfo A → ElectedInfo A → Result (ElectedInfo A)
  fetch_prev env tail prev = do
    place ← get_pos env tail
    let (before, behind) = place
    take_prev env tail prev before

  abbrev pub none_next : Env A → ElectedInfo A → Bool → Result (ElectedInfo A)
  none_next env next true = err "next not found"
  none_next env next false = ok (cleared env next)

  abbrev pub take_next :
      Env A → ElectedInfo A → ElectedInfo A → Bool → List (Indexed A) → Result (ElectedInfo A)
  take_next env tail next check_found [] = none_next env next check_found
  take_next env tail next check_found (e ∷ l) =
      if e.has_ext
      then (do
        lower ← less env.sdk (get_elected_info e next) tail
        check lower "next < tail"
        ok (get_elected_info e next))
      else none_next env next check_found

  -- `fetch_next`
  unfoldable pub fetch_next : Env A → ElectedInfo A → ElectedInfo A → Bool → Result (ElectedInfo A)
  fetch_next env tail next check_found = do
    place ← get_pos env tail
    let (before, behind) = place
    take_next env tail next check_found behind

  -- Changes of a producer, in the two maps.
  unfoldable pub add_main : ElectedInfo A → Work A → Result (Work A)
  add_main p w = do l ← add w.main_changes p.name p.authority; ok (record w { main_changes = l })

  unfoldable pub del_main : ElectedInfo A → Work A → Result (Work A)
  del_main p w = do l ← del w.main_changes p.name; ok (record w { main_changes = l })

  unfoldable pub modify_main : ElectedInfo A → Work A → Result (Work A)
  modify_main p w = do
    l ← modify w.main_changes p.name p.authority
    ok (record w { main_changes = l })

  unfoldable pub add_backup : ElectedInfo A → Work A → Result (Work A)
  add_backup p w = do
    l ← add w.backup_changes p.name p.authority
    ok (record w { backup_changes = l })

  unfoldable pub del_backup : ElectedInfo A → Work A → Result (Work A)
  del_backup p w = do l ← del w.backup_changes p.name; ok (record w { backup_changes = l })

  unfoldable pub modify_backup : ElectedInfo A → Work A → Result (Work A)
  modify_backup p w = do
    l ← modify w.backup_changes p.name p.authority
    ok (record w { backup_changes = l })
