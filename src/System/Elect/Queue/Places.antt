-- ===== src/System/Elect/Queue/Places.antt =====
-- What `process_elected_producer` does with a producer of the backup queue, by where it comes.
use amax_contracts.Common.{Bool, true, false, ◌||◌, if◌then◌else◌, Result, ok, ◌>>=◌}
use amax_contracts.System.Elect.{ElectedInfo, same}
use amax_contracts.System.Elect.Queue.{Env, Work, cleared, add_backup, del_backup}
use amax_contracts.System.Elect.Queue.Steps.{stays, shorter, modified_backup}

module _ {A : Type 0} (env : Env A) where
  -- `prod_old >= beq.tail`, with both below the tail of the main queue: the places that the
  -- producer had are not kept.
  unfoldable pub leave_places : ElectedInfo A → Work A → Result (Work A)
  leave_places old w = do
    is_tail ← same env.sdk old w.beq.tail
    if is_tail
        then ok (record w {
          beq = record w.beq { tail = w.beq.tail_prev };
          refresh_backup_tail_prev = true;
        })
        else do
          is_prev ← same env.sdk old w.beq.tail_prev
          if is_prev then ok (record w { refresh_backup_tail_prev = true }) else do
            is_next ← same env.sdk old w.meq.tail_next
            ok (if is_next then record w { refresh_main_tail_next = true } else w)

  unfoldable pub to_first : ElectedInfo A → ElectedInfo A → Work A → Result (Work A)
  to_first old new w = do
    is_prev ← same env.sdk old w.beq.tail_prev
    is_tail ← if is_prev then ok false else same env.sdk old w.beq.tail
    ok (record w {
      meq = record w.meq { tail_next = new };
      beq = record w.beq { tail = if is_tail then w.beq.tail_prev else w.beq.tail };
      refresh_backup_tail_prev = is_prev || is_tail || w.refresh_backup_tail_prev;
    })

  unfoldable pub to_upper : ElectedInfo A → ElectedInfo A → Work A → Result (Work A)
  to_upper old new w = do
    is_next ← same env.sdk old w.meq.tail_next
    if is_next then ok (record w { refresh_main_tail_next = true }) else do
      is_prev ← same env.sdk old w.beq.tail_prev
      if is_prev
          then (do
            stay ← same env.sdk new w.beq.tail_prev
            ok (if stay then w else record w { refresh_backup_tail_prev = true }))
          else do
            is_tail ← same env.sdk old w.beq.tail
            ok (
                if is_tail
                then record w {
                  beq = record w.beq { tail = w.beq.tail_prev };
                  refresh_backup_tail_prev = true;
                }
                else w)

  unfoldable pub to_prev : ElectedInfo A → ElectedInfo A → Work A → Result (Work A)
  to_prev old new w = do
    is_tail ← same env.sdk old w.beq.tail
    if is_tail then ok (record w { beq = record w.beq { tail = new } }) else do
      is_next ← same env.sdk old w.meq.tail_next
      let moved = record w { beq = record w.beq { tail_prev = new } }
      ok (
          if is_next
          then record moved {
            meq = record w.meq { tail_next = cleared env w.meq.tail_next };
            refresh_main_tail_next = true;
          }
          else moved)

  unfoldable pub to_tail : ElectedInfo A → ElectedInfo A → Work A → Result (Work A)
  to_tail old new w = do
    is_tail ← same env.sdk old w.beq.tail
    is_next ← if is_tail then ok false else same env.sdk old w.meq.tail_next
    ok (record w {
      beq = record w.beq {
        tail_prev = if is_tail then w.beq.tail_prev else w.beq.tail;
        tail = new;
      };
      refresh_main_tail_next = is_next || w.refresh_main_tail_next;
    })

  unfoldable pub drop_end : ElectedInfo A → ElectedInfo A → Work A → Result (Work A)
  drop_end old new w = do
    left ← leave_places old w
    del_backup new (shorter env (record left { beq = record left.beq { tail_next = new } }))

  unfoldable pub drop_below : ElectedInfo A → ElectedInfo A → Work A → Result (Work A)
  drop_below old new w = do left ← leave_places old w; del_backup new (shorter env left)

  unfoldable pub keep_end : ElectedInfo A → ElectedInfo A → Work A → Result (Work A)
  keep_end old new w = do moved ← to_tail old new w; modified_backup env old new moved

  -- Below the tail of the backup queue, but not below what is next to it.
  unfoldable pub to_end : ElectedInfo A → ElectedInfo A → Work A → Result (Work A)
  to_end old new w = do
    stay ← stays env new w.beq.last_producer_count
    if stay then keep_end old new w else drop_end old new w

  abbrev pub next_swapped : Bool → Bool → Work A → Work A
  next_swapped is_tail is_next w = record w {
    meq = record w.meq {
      tail_next = if is_next then cleared env w.meq.tail_next else w.meq.tail_next;
    };
    beq = record w.beq {
      tail_prev = if is_tail then w.beq.tail_prev else w.beq.tail;
      tail = w.beq.tail_next;
    };
    refresh_main_tail_next = is_next || w.refresh_main_tail_next;
    refresh_backup_tail_next = true;
  }

  unfoldable pub swap_next : ElectedInfo A → ElectedInfo A → Work A → Result (Work A)
  swap_next old new w = do
    is_tail ← same env.sdk old w.beq.tail
    is_next ← same env.sdk old w.meq.tail_next
    a ← del_backup new (next_swapped is_tail is_next w)
    add_backup w.beq.tail_next a

  -- Below what is next to the tail of the backup queue.
  unfoldable pub out_of_backup : ElectedInfo A → ElectedInfo A → Work A → Result (Work A)
  out_of_backup old new w = do
    stay ← stays env w.beq.tail_next w.beq.last_producer_count
    if stay then swap_next old new w else drop_below old new w
