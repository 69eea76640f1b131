-- ===== src/System/Elect/Queue/Steps.antt =====
-- What `process_elected_producer` does with the queues, by where a producer was and is.
use amax_contracts.Common.{
  ℕ, Bool, true, false, not, ◌&&◌, ◌||◌, ◌==◌, ltb, if◌then◌else◌, Result, ok, ◌>>=◌, ◌>>◌, check,
}
use amax_contracts.System.Elect.{ElectedInfo, less, larger, at_least, same}
use amax_contracts.System.Elect.Queue.{
  Env, Work, min_backup_producer_count, incremented, decremented, cleared, is_empty,
  is_prod_votes_valid, fetch_next, add_main, del_main, modify_main, add_backup, del_backup,
  modify_backup,
}

module _ {A : Type 0} (env : Env A) where
  -- The votes are valid, or the queue is at its shortest.
  unfoldable pub stays : ElectedInfo A → ℕ → Result Bool
  stays p count = do
    valid ← is_prod_votes_valid env p
    ok (valid || count == min_backup_producer_count)

  -- A producer that stays in the main queue.
  abbrev pub main_top : ElectedInfo A → Work A → Work A
  main_top new w =
      if new.name == w.meq.tail_prev.name
      then record w {
        meq = record w.meq { tail_prev = cleared env w.meq.tail_prev };
        refresh_main_tail_prev = true;
      }
      else if new.name == w.meq.tail.name
      then record w {
        meq = record w.meq { tail = w.meq.tail_prev; tail_prev = cleared env w.meq.tail_prev };
        refresh_main_tail_prev = true;
      }
      else w

  abbrev pub main_middle : ElectedInfo A → Work A → Work A
  main_middle new w =
      if new.name == w.meq.tail.name
      then record w { meq = record w.meq { tail = new } }
      else if new.name == w.meq.tail_prev.name
      then record w { meq = record w.meq { tail_prev = new } }
      else record w {
        meq = record w.meq { tail_prev = cleared env w.meq.tail_prev };
        refresh_main_tail_prev = true;
      }

  abbrev pub main_end : ElectedInfo A → Work A → Work A
  main_end new w = record w {
    meq = record w.meq {
      tail_prev = if new.name == w.meq.tail.name then w.meq.tail_prev else w.meq.tail;
      tail = new;
    };
  }

  abbrev pub shorter : Work A → Work A
  shorter w = record w {
    beq = record w.beq { last_producer_count = decremented w.beq.last_producer_count };
  }

  abbrev pub longer : Work A → Work A
  longer w = record w {
    beq = record w.beq { last_producer_count = incremented w.beq.last_producer_count };
  }

  -- A producer that left the main queue goes behind it: below the tail of the backup queue, or
  -- below what is next to it.
  unfoldable pub below_tail : ElectedInfo A → Work A → Result (Work A)
  below_tail new w = do
    stay ← stays new w.beq.last_producer_count
    if stay
        then add_backup new (record w { beq = record w.beq { tail_prev = w.beq.tail; tail = new } })
        else ok (shorter (record w { beq = record w.beq { tail_next = new } }))

  unfoldable pub below_next : Work A → Result (Work A)
  below_next w = do
    stay ← stays w.beq.tail_next w.beq.last_producer_count
    if stay
        then add_backup w.beq.tail_next (record w {
          beq = record w.beq {
            tail_prev = w.beq.tail;
            tail = w.beq.tail_next;
            tail_next = cleared env w.beq.tail_next;
          };
          refresh_backup_tail_next = true;
        })
        else ok (shorter w)

  unfoldable pub above_tail : ElectedInfo A → Work A → Result (Work A)
  above_tail new w = do
    under ← less env.sdk new w.beq.tail_prev
    add_backup new
        (record w { beq = record w.beq { tail_prev = if under then new else w.beq.tail_prev } })

  unfoldable pub behind_main : ElectedInfo A → Work A → Result (Work A)
  behind_main new w = do
    over ← larger env.sdk new w.beq.tail
    if over then above_tail new w else do
      over_next ← larger env.sdk new w.beq.tail_next
      if over_next then below_tail new w else below_next w

  unfoldable pub leave_main : ElectedInfo A → Work A → Result (Work A)
  leave_main new w = do
    a ← del_main new w
    b ← del_backup w.meq.tail_next a
    c ← add_main w.meq.tail_next b
    check (ltb 0 w.beq.last_producer_count && not (is_empty w.beq.tail))
        "beq.last_producer_count > 0 && !beq.tail.empty()"
    d ← behind_main new c
    ok (record d {
      meq = record d.meq {
        tail_prev = if new.name == d.meq.tail.name then d.meq.tail_prev else d.meq.tail;
        tail = d.meq.tail_next;
        tail_next = cleared env d.meq.tail_next;
      };
      refresh_main_tail_next = true;
    })

  unfoldable pub modified_main : ElectedInfo A → ElectedInfo A → Work A → Result (Work A)
  modified_main old new w =
      if env.authority_eq new.authority old.authority then ok w else modify_main new w

  unfoldable pub modified_backup : ElectedInfo A → ElectedInfo A → Work A → Result (Work A)
  modified_backup old new w =
      if env.authority_eq new.authority old.authority then ok w else modify_backup new w

  -- `prod_old >= meq.tail`
  unfoldable pub from_main : ElectedInfo A → ElectedInfo A → Work A → Result (Work A)
  from_main old new w = do
    top ← at_least env.sdk new w.meq.tail_prev
    if top then modified_main old new (main_top new w) else do
      middle ← at_least env.sdk new w.meq.tail
      if middle then modified_main old new (main_middle new w) else do
        last ← larger env.sdk new w.meq.tail_next
        if last then modified_main old new (main_end new w) else leave_main new w

  -- A producer that was in the backup queue joins the main queue.
  unfoldable pub from_backup : ElectedInfo A → Work A → Result (Work A)
  from_backup old w = do
    is_prev ← same env.sdk old w.beq.tail_prev
    if is_prev
        then ok (record w {
          beq = record w.beq { tail_prev = cleared env w.beq.tail_prev };
          refresh_backup_tail_prev = true;
        })
        else do
          is_tail ← same env.sdk old w.beq.tail
          ok (
              if is_tail
              then record w {
                beq = record w.beq {
                  tail = w.beq.tail_prev;
                  tail_prev = cleared env w.beq.tail_prev;
                };
                refresh_backup_tail_prev = true;
              }
              else w)

  unfoldable pub pop_tail : Work A → Result (Work A)
  pop_tail w = do
    a ← del_backup w.beq.tail w
    ok (record a {
      beq = record a.beq {
        tail_next = a.beq.tail;
        tail = a.beq.tail_prev;
        tail_prev = cleared env a.beq.tail_prev;
      };
      refresh_backup_tail_prev = true;
    })

  -- What is next to the backup queue was fetched again.
  abbrev pub with_next : ElectedInfo A → Work A → Work A
  with_next next w = record w { beq = record w.beq { tail_next = next } }

  unfoldable pub push_over : ElectedInfo A → Work A → Result (Work A)
  push_over next w =
      if is_empty next then pop_tail (with_next next w) else ok (longer (with_next next w))

  unfoldable pub push_fetched : Work A → Result (Work A)
  push_fetched w = do next ← fetch_next env w.beq.tail w.beq.tail_next false; push_over next w

  -- The backup queue gets the main queue's tail, and loses its own if it cannot grow.
  unfoldable pub push_backup : ElectedInfo A → Work A → Result (Work A)
  push_backup old w =
      if w.beq.last_producer_count == env.max_backup_producer_count then pop_tail w else do
        is_next ← same env.sdk old w.beq.tail_next
        if is_next then push_fetched w else ok (longer w)

  abbrev pub main_grown : Work A → Work A
  main_grown w = record w {
    meq = record w.meq {
      tail_next = w.meq.tail;
      tail = w.meq.tail_prev;
      tail_prev = cleared env w.meq.tail_prev;
    };
    refresh_main_tail_prev = true;
  }

  -- `prod_new > meq.tail`, where `prod_old < meq.tail`
  unfoldable pub into_main : ElectedInfo A → ElectedInfo A → Work A → Result (Work A)
  into_main old new w = do
    a ← del_main w.meq.tail w
    b ← add_main new a
    c ← add_backup w.meq.tail b
    over ← larger env.sdk new w.meq.tail_prev
    let d =
        if over
        then main_grown c
        else record c { meq = record c.meq { tail_next = c.meq.tail; tail = new } }
    was_backup ← at_least env.sdk old w.beq.tail
    if was_backup then (do e ← del_backup new d; from_backup old e) else push_backup old d
