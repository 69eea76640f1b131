-- ===== src/System/Elect/Queue/Joins.antt =====
-- The moves of a producer that was in no queue.
use amax_contracts.Common.{
  ℕ, ◌<◌, ◌≡◌, Bool, true, not, ◌||◌, if◌then◌else◌, ok, arith, with_ok, Bool-cases, inl, inr,
}
use amax_contracts.Common.Int.{ℤ, pos}
use amax_contracts.System.Elect.{ElectedInfo, less, at_least, same}
use amax_contracts.System.Elect.Queue.{Env, Work, add_backup, del_backup}
use amax_contracts.System.Elect.Changes.{add}
use amax_contracts.System.Elect.Queue.Steps.{longer}
use amax_contracts.System.Elect.Queue.Process.{
  has_room, becomes_first, place_long, join_long, place_short, join_short, join_backup, grow_end,
  join_end, grow_next, mark_next, stay_out, from_outside,
}
use amax_contracts.System.Elect.Queue.Balance.{longer-IsOff}
use amax_contracts.System.Elect.Queue.Moves.{Even, Over, add_backup-Over, del_backup-Even}
use amax_contracts.System.Elect.Queue.Backup.{Keeps-Even}

module _ {A : Type 0} (env : Env A) (m b : ℤ) (c : ℕ)
    (top : env.max_backup_producer_count < 4294967296) where
  has_room_lem :
      (old p : ElectedInfo A) (w : Work A)
      → has_room env old p w ≡ ok true
      → w.beq.last_producer_count < env.max_backup_producer_count
  unfolding has_room
  has_room_lem old p w e = ground arith

  add_backup-count :
      (p : ElectedInfo A) (w w' : Work A)
      → add_backup p w ≡ ok w'
      → w'.beq.last_producer_count ≡ w.beq.last_producer_count
  unfolding add_backup
  add_backup-count p w w' e =
      with_ok (add w.backup_changes p.name p.authority) (λ m q. ground arith) λ l q. ground arith

  place_long-Even :
      (under : Bool) (new : ElectedInfo A) (w w' : Work A)
      → w.beq.last_producer_count < env.max_backup_producer_count
      → place_long env under new w ≡ ok w'
      → Over env m b c top w
      → Even env m b c top w'
  unfolding place_long
  place_long-Even under new w w' room e h =
      with_ok (becomes_first env under new w) (λ m q. ground arith)
        λ first q.
          let put = record w {
            meq = record w.meq { tail_next = if first then new else w.meq.tail_next };
            beq = record w.beq { tail_prev = if under then new else w.beq.tail_prev };
          } in
          let result : w' ≡ longer env put = ground arith in
          rw result (longer-IsOff env m b c (pos 0) put top room h)

  join_long-Even :
      (new : ElectedInfo A) (w w' : Work A)
      → w.beq.last_producer_count < env.max_backup_producer_count
      → join_long env new w ≡ ok w'
      → Over env m b c top w
      → Even env m b c top w'
  unfolding join_long
  join_long-Even new w w' room e h =
      with_ok (less env.sdk new w.beq.tail_prev) (λ m q. ground arith)
        λ under q. place_long-Even under new w w' room (ground arith) h

  place_short-Even :
      (under : Bool) (new : ElectedInfo A) (w w' : Work A)
      → place_short env under new w ≡ ok w'
      → Even env m b c top w
      → Even env m b c top w'
  unfolding place_short
  place_short-Even under new w w' e h =
      with_ok (becomes_first env under new w) (λ m q. ground arith)
        λ first q.
          let put : w' ≡ record w {
            meq = record w.meq { tail_next = if first then new else w.meq.tail_next };
            beq = record w.beq {
              tail_next = w.beq.tail;
              tail = if under then new else w.beq.tail_prev;
            };
            refresh_backup_tail_prev = not under || w.refresh_backup_tail_prev;
          } =
            ground arith in
          rw put h

  join_short-Even :
      (new : ElectedInfo A) (w w' : Work A)
      → join_short env new w ≡ ok w'
      → Over env m b c top w
      → Even env m b c top w'
  unfolding join_short
  join_short-Even new w w' e h =
      with_ok (del_backup w.beq.tail w) (λ m q. ground arith)
        λ a qa.
          with_ok (less env.sdk new a.beq.tail_prev) (λ m q. ground arith)
            λ under q.
              place_short-Even under new a w' (ground arith)
                (del_backup-Even env m b c top w.beq.tail w a qa h)

  join_backup-Even :
      (old new : ElectedInfo A) (w w' : Work A)
      → join_backup env old new w ≡ ok w'
      → Even env m b c top w
      → Even env m b c top w'
  unfolding join_backup
  join_backup-Even old new w w' e h =
      with_ok (same env.sdk new w.beq.tail) (λ m q. ground arith)
        λ equal q1.
          with_ok (add_backup new w) (λ m q. ground arith)
            λ a qa.
              with_ok (has_room env old w.beq.tail w) (λ m q. ground arith)
                λ room q2.
                  let over = add_backup-Over env m b c top new w a qa h in
                  elim (Bool-cases room) [
                    | inl s ↦
                        let space = has_room_lem old w.beq.tail w (ground arith) in
                        let same_count = add_backup-count new w a qa in
                        join_long-Even new a w' (rw same_count space) (ground arith) over
                    | inr s ↦ join_short-Even new a w' (ground arith) over
                  ]

  grow_end-Even :
      (new : ElectedInfo A) (w w' : Work A)
      → w.beq.last_producer_count < env.max_backup_producer_count
      → grow_end env new w ≡ ok w'
      → Even env m b c top w
      → Even env m b c top w'
  unfolding grow_end
  grow_end-Even new w w' room e h =
      with_ok (add_backup new w) (λ m q. ground arith)
        λ a qa.
          let put = record a { beq = record a.beq { tail_prev = a.beq.tail; tail = new } } in
          let result : w' ≡ longer env put = ground arith in
          let same_count = add_backup-count new w a qa in
          rw result (
            longer-IsOff env m b c (pos 0) put top (rw same_count room)
              (add_backup-Over env m b c top new w a qa h))

  join_end-Even :
      (old new : ElectedInfo A) (w w' : Work A)
      → join_end env old new w ≡ ok w'
      → Even env m b c top w
      → Even env m b c top w'
  unfolding join_end
  join_end-Even old new w w' e h =
      with_ok (has_room env old new w) (λ m q. ground arith)
        λ room q. elim (Bool-cases room) [
          | inl s ↦ grow_end-Even new w w' (has_room_lem old new w (ground arith)) (ground arith) h
          | inr s ↦
              let result : w' ≡ record w { beq = record w.beq { tail_next = new } } =
                ground arith in
              rw result h
        ]

  grow_next-Even :
      (w w' : Work A)
      → w.beq.last_producer_count < env.max_backup_producer_count
      → grow_next env w ≡ ok w'
      → Even env m b c top w
      → Even env m b c top w'
  unfolding grow_next
  grow_next-Even w w' room e h =
      with_ok (add_backup w.beq.tail_next w) (λ m q. ground arith)
        λ a qa.
          let put = record a {
            beq = record a.beq { tail_prev = a.beq.tail; tail = a.beq.tail_next };
            refresh_backup_tail_next = true;
          } in
          let result : w' ≡ longer env put = ground arith in
          let same_count = add_backup-count w.beq.tail_next w a qa in
          rw result (
            longer-IsOff env m b c (pos 0) put top (rw same_count room)
              (add_backup-Over env m b c top w.beq.tail_next w a qa h))

  mark_next-Even :
      (old : ElectedInfo A) (w w' : Work A)
      → mark_next env old w ≡ ok w'
      → Even env m b c top w
      → Even env m b c top w'
  unfolding mark_next
  mark_next-Even old w w' e h =
      with_ok (same env.sdk old w.beq.tail_next) (λ m q. ground arith)
        λ is_next q. Keeps-Even env m b c top w w' (ground arith) h

  stay_out-Even :
      (old : ElectedInfo A) (w w' : Work A)
      → stay_out env old w ≡ ok w'
      → Even env m b c top w
      → Even env m b c top w'
  unfolding stay_out
  stay_out-Even old w w' e h =
      with_ok (has_room env old w.beq.tail_next w) (λ m q. ground arith)
        λ room q. elim (Bool-cases room) [
          | inl s ↦
              grow_next-Even w w' (has_room_lem old w.beq.tail_next w (ground arith)) (ground arith)
                h
          | inr s ↦ mark_next-Even old w w' (ground arith) h
        ]

  pub from_outside-Even :
      (old new : ElectedInfo A) (w w' : Work A)
      → from_outside env old new w ≡ ok w'
      → Even env m b c top w
      → Even env m b c top w'
  unfolding from_outside
  from_outside-Even old new w w' e h =
      with_ok (at_least env.sdk new w.beq.tail) (λ m q. ground arith)
        λ above q1. elim (Bool-cases above) [
          | inl s ↦ join_backup-Even old new w w' (ground arith) h
          | inr s ↦
              with_ok (at_least env.sdk new w.beq.tail_next) (λ m q. ground arith)
                λ end q2. elim (Bool-cases end) [
                  | inl t ↦ join_end-Even old new w w' (ground arith) h
                  | inr t ↦ stay_out-Even old w w' (ground arith) h
                ]
        ]
