-- ===== src/System/Elect/Queue/Process.antt =====
-- `process_elected_producer`.
use amax_contracts.Common.{
  ◌+◌, ◌%◌, ◌^◌, Bool, true, false, not, ◌&&◌, ◌||◌, ◌==◌, ltb, leb, if◌then◌else◌, Result, ok,
  ◌>>=◌, ◌>>◌, check,
}
use amax_contracts.System.Elect.{ElectedInfo, less, larger, at_least, same}
use amax_contracts.System.Elect.Changes.{ProposedChanges}
use amax_contracts.System.Elect.Queue.{
  Queue, Env, Work, min_backup_producer_count, is_empty, is_prod_votes_valid, fetch_prev,
  fetch_next, add_backup, del_backup,
}
use amax_contracts.System.Elect.Queue.Steps.{longer, modified_backup, from_main, into_main}
use amax_contracts.System.Elect.Queue.Places.{to_first, to_upper, to_prev, to_end, out_of_backup}

-- The queues and the changes, before and after.
pub record Elected (A : Type 0) : Type 0 where
  pub main_elected_queue : Queue A
  pub backup_elected_queue : Queue A
  pub changes : ProposedChanges A

module _ {A : Type 0} (env : Env A) where
  -- `prod_old >= beq.tail`, with both below the tail of the main queue.
  unfoldable pub within_backup : ElectedInfo A → ElectedInfo A → Work A → Result (Work A)
  within_backup old new w = do
    first ← at_least env.sdk new w.meq.tail_next
    if first then (do a ← to_first env old new w; modified_backup env old new a) else do
      upper ← at_least env.sdk new w.beq.tail_prev
      if upper then (do a ← to_upper env old new w; modified_backup env old new a) else do
        prev ← at_least env.sdk new w.beq.tail
        if prev then (do a ← to_prev env old new w; modified_backup env old new a) else do
          end ← larger env.sdk new w.beq.tail_next
          if end then to_end env old new w else out_of_backup env old new w

  -- Whether the backup queue can take one more that was not next to it.
  unfoldable pub has_room : ElectedInfo A → ElectedInfo A → Work A → Result Bool
  has_room old p w =
      if ltb w.beq.last_producer_count env.max_backup_producer_count
      then (do
        is_next ← same env.sdk old w.beq.tail_next
        if is_next then ok false else is_prod_votes_valid env p)
      else ok false

  -- Whether a producer that is not below `beq.tail_prev` comes next to the main queue.
  unfoldable pub becomes_first : Bool → ElectedInfo A → Work A → Result Bool
  becomes_first under new w = if under then ok false else larger env.sdk new w.meq.tail_next

  unfoldable pub place_long : Bool → ElectedInfo A → Work A → Result (Work A)
  place_long under new w = do
    first ← becomes_first under new w
    ok (
        longer env (record w {
          meq = record w.meq { tail_next = if first then new else w.meq.tail_next };
          beq = record w.beq { tail_prev = if under then new else w.beq.tail_prev };
        }))

  unfoldable pub join_long : ElectedInfo A → Work A → Result (Work A)
  join_long new w = do under ← less env.sdk new w.beq.tail_prev; place_long under new w

  unfoldable pub place_short : Bool → ElectedInfo A → Work A → Result (Work A)
  place_short under new w = do
    first ← becomes_first under new w
    ok (record w {
      meq = record w.meq { tail_next = if first then new else w.meq.tail_next };
      beq = record w.beq { tail_next = w.beq.tail; tail = if under then new else w.beq.tail_prev };
      refresh_backup_tail_prev = not under || w.refresh_backup_tail_prev;
    })

  unfoldable pub join_short : ElectedInfo A → Work A → Result (Work A)
  join_short new w = do
    a ← del_backup w.beq.tail w
    under ← less env.sdk new a.beq.tail_prev
    place_short under new a

  unfoldable pub join_backup : ElectedInfo A → ElectedInfo A → Work A → Result (Work A)
  join_backup old new w = do
    equal ← same env.sdk new w.beq.tail
    check (not equal) "prod_new != beq.tail"
    a ← add_backup new w
    room ← has_room old w.beq.tail w
    if room then join_long new a else join_short new a

  unfoldable pub grow_end : ElectedInfo A → Work A → Result (Work A)
  grow_end new w = do
    a ← add_backup new w
    ok (longer env (record a { beq = record a.beq { tail_prev = a.beq.tail; tail = new } }))

  unfoldable pub join_end : ElectedInfo A → ElectedInfo A → Work A → Result (Work A)
  join_end old new w = do
    room ← has_room old new w
    if room then grow_end new w else ok (record w { beq = record w.beq { tail_next = new } })

  unfoldable pub grow_next : Work A → Result (Work A)
  grow_next w = do
    a ← add_backup w.beq.tail_next w
    ok (
        longer env (record a {
          beq = record a.beq { tail_prev = a.beq.tail; tail = a.beq.tail_next };
          refresh_backup_tail_next = true;
        }))

  unfoldable pub mark_next : ElectedInfo A → Work A → Result (Work A)
  mark_next old w = do
    is_next ← same env.sdk old w.beq.tail_next
    ok (if is_next then record w { refresh_backup_tail_next = true } else w)

  unfoldable pub stay_out : ElectedInfo A → Work A → Result (Work A)
  stay_out old w = do
    room ← has_room old w.beq.tail_next w
    if room then grow_next w else mark_next old w

  -- `prod_old < beq.tail`, and `prod_new` is not above the tail of the main queue.
  unfoldable pub from_outside : ElectedInfo A → ElectedInfo A → Work A → Result (Work A)
  from_outside old new w = do
    above ← at_least env.sdk new w.beq.tail
    if above then join_backup old new w else do
      end ← at_least env.sdk new w.beq.tail_next
      if end then join_end old new w else stay_out old w

  unfoldable pub move : ElectedInfo A → ElectedInfo A → Work A → Result (Work A)
  move old new w = do
    was_main ← at_least env.sdk old w.meq.tail
    if was_main then from_main env old new w else do
      over ← larger env.sdk new w.meq.tail
      if over then into_main env old new w else do
        was_backup ← at_least env.sdk old w.beq.tail
        if was_backup then within_backup old new w else from_outside old new w

  unfoldable pub refresh : Work A → Result (Work A)
  refresh w = do
    main_prev ←
        if w.refresh_main_tail_prev
        then fetch_prev env w.meq.tail w.meq.tail_prev
        else ok w.meq.tail_prev
    main_next ←
        if w.refresh_main_tail_next
        then fetch_next env w.meq.tail w.meq.tail_next true
        else ok w.meq.tail_next
    backup_prev ←
        if w.refresh_backup_tail_prev
        then fetch_prev env w.beq.tail w.beq.tail_prev
        else ok w.beq.tail_prev
    backup_next ←
        if w.refresh_backup_tail_next
        then fetch_next env w.beq.tail w.beq.tail_next true
        else ok w.beq.tail_next
    ok (record w {
      meq = record w.meq { tail_prev = main_prev; tail_next = main_next };
      beq = record w.beq { tail_prev = backup_prev; tail_next = backup_next };
    })

  abbrev pub start : Elected A → Work A
  start st = record {
    meq = st.main_elected_queue;
    beq = st.backup_elected_queue;
    main_changes = st.changes.main_changes.changes;
    backup_changes = st.changes.backup_changes.changes;
    refresh_main_tail_prev = false;
    refresh_main_tail_next = false;
    refresh_backup_tail_prev = false;
    refresh_backup_tail_next = false;
  }

  abbrev pub finish : Elected A → Work A → Elected A
  finish st w = record {
    main_elected_queue = w.meq;
    backup_elected_queue = w.beq;
    changes = record {
      main_changes = record st.changes.main_changes {
        producer_count = w.meq.last_producer_count;
        changes = w.main_changes;
      };
      backup_changes = record st.changes.backup_changes {
        producer_count = w.beq.last_producer_count;
        changes = w.backup_changes;
      };
    };
  }

  abbrev pub are_long_enough : Elected A → Bool
  are_long_enough st =
      leb ((env.max_main_producer_count + min_backup_producer_count + 1) % 2 ^ 32) (
        (st.main_elected_queue.last_producer_count + st.backup_elected_queue.last_producer_count
          + 1)
        % 2 ^ 32)

  abbrev pub are_filled : Elected A → Bool
  are_filled st =
      not (is_empty st.main_elected_queue.tail)
      && not (is_empty st.main_elected_queue.tail_prev)
      && not (is_empty st.backup_elected_queue.tail_next)
      && not (is_empty st.backup_elected_queue.tail)
      && not (is_empty st.backup_elected_queue.tail_prev)

  unfoldable pub process : ElectedInfo A → ElectedInfo A → Elected A → Result (Elected A)
  process old new st = do
    check (old.name == new.name) "prod_old.name == prod_new.name"
    check (are_long_enough st)
        "meq.last_producer_count + beq.last_producer_count + 1 >= min_producer_count"
    check (are_filled st) "!meq.tail.empty() && !meq.tail_prev.empty() && !beq.tail_next.empty()"
    ordered ← less env.sdk st.backup_elected_queue.tail_prev st.main_elected_queue.tail_next
    check ordered "beq.tail_prev < meq.tail_next"
    check (ltb 0 st.main_elected_queue.last_producer_count) "meq.last_producer_count > 0"
    moved ← move old new (start st)
    refreshed ← refresh moved
    ok (finish st refreshed)

  unfoldable pub process_elected_producer :
      ElectedInfo A → ElectedInfo A → Elected A → Result (Elected A)
  process_elected_producer old new st = if env.is_init then process old new st else ok st
