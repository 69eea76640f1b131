-- ===== src/System/Elect/Queue/Tests.antt =====
-- Two main and three backup producers, and one that is next to them. When the last one gets more
-- votes than the second, it joins the main queue, and the others move down.
use amax_contracts.Common.{
  ℕ, ◌+◌, ◌-◌, ◌*◌, ◌==◌, ◌≡◌, refl, true, false, [], ◌∷◌, arith, Result, ok, err,
}
use amax_contracts.Common.Int.{pos}
use amax_contracts.Chain.{Symbol, asset}
use amax_contracts.Chain.Sample.{sdk}
use amax_contracts.System.Elect.{ElectedInfo, less, larger, at_least, same, by_elected_prod}
use amax_contracts.System.Elect.Changes.{ChangeMap, add, del}
use amax_contracts.System.Elect.Queue.{
  Indexed, Env, get_pos, fetch_prev, fetch_next, add_main, del_main, add_backup, del_backup,
}
use amax_contracts.System.Elect.Queue.Steps.{
  push_over, push_fetched, push_backup, pop_tail, into_main,
}
use amax_contracts.System.Elect.Queue.Process.{
  move, refresh, Elected, process, process_elected_producer,
}
use amax_contracts.System.Elect.Queue.Lengths.{IsBalanced, process_elected_producer-IsBalanced}

abbrev vote : Symbol
vote = record { code = 86; precision = 4 }

abbrev candidate : ℕ → ℕ → ElectedInfo ℕ
candidate n votes = record {
  name = n;
  is_active = true;
  elected_votes = asset (pos votes) vote;
  authority = n;
}

abbrev indexed : ℕ → ℕ → Indexed ℕ
indexed n votes = record {
  key = (9223372036854775807 - votes) * 18446744073709551616 + n;
  info = candidate n votes;
  has_ext = true;
}

abbrev env : Env ℕ
env = record {
  sdk = sdk;
  is_init = true;
  max_main_producer_count = 2;
  max_backup_producer_count = 4;
  min_producer_votes = asset (pos 5) vote;
  index =
      indexed 1 60 ∷ indexed 6 55 ∷ indexed 2 50 ∷ indexed 3 40 ∷ indexed 4 30 ∷ indexed 5 20 ∷ [];
  authority_eq = λ a b. a == b;
  no_authority = 0;
}

abbrev no_changes : ℕ → ChangeMap ℕ
no_changes n = record { clear_existed = false; producer_count = n; changes = [] }

abbrev before : Elected ℕ
before = record {
  main_elected_queue = record {
    last_producer_count = 2;
    tail = candidate 2 50;
    tail_prev = candidate 1 60;
    tail_next = candidate 3 40;
  };
  backup_elected_queue = record {
    last_producer_count = 3;
    tail = candidate 5 20;
    tail_prev = candidate 4 30;
    tail_next = candidate 6 10;
  };
  changes = record { main_changes = no_changes 2; backup_changes = no_changes 3 };
}

abbrev value_of : Result (Elected ℕ) → Elected ℕ
value_of (ok st) = st
value_of (err _) = before

abbrev after_vote : Elected ℕ
after_vote = value_of (process_elected_producer env (candidate 6 10) (candidate 6 55) before)

voted : process_elected_producer env (candidate 6 10) (candidate 6 55) before ≡ ok after_vote
unfolding process_elected_producer process move refresh into_main push_backup push_fetched push_over
    pop_tail fetch_prev fetch_next get_pos by_elected_prod add_main del_main add_backup del_backup
    add del less larger at_least same
voted = refl

-- 6 is the new tail of the main queue, and 4 that of the backup queue.
tails :
    (after_vote.main_elected_queue.tail.name ≡ 6) × (after_vote.backup_elected_queue.tail.name ≡ 4)
unfolding process_elected_producer process move refresh into_main push_backup push_fetched push_over
    pop_tail fetch_prev fetch_next get_pos by_elected_prod add_main del_main add_backup del_backup
    add del less larger at_least same
tails = (refl, refl)

before-IsBalanced : IsBalanced env before before
before-IsBalanced = record {
  main_sorted = tt;
  backup_sorted = tt;
  same_length = refl;
  main_net = refl;
  backup_net = refl;
  least = omega arith;
  most = omega arith;
}

process_elected_producer-IsBalanced_example : IsBalanced env before after_vote
process_elected_producer-IsBalanced_example =
    process_elected_producer-IsBalanced env (candidate 6 10) (candidate 6 55) before after_vote
      (omega arith) before-IsBalanced voted
