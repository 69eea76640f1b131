-- ===== src/System/Elect/Queue/Backup.antt =====
-- The moves within the backup queue.
use amax_contracts.Common.{ℕ, ◌<◌, ◌≡◌, false, ◌==◌, ok, arith, with_ok, Bool-cases, inl, inr}
use amax_contracts.Common.Int.{ℤ, pos}
use amax_contracts.System.Elect.{ElectedInfo, larger, at_least, same}
use amax_contracts.System.Elect.Queue.{Env, Work, del_backup}
use amax_contracts.System.Elect.Queue.Steps.{stays, shorter}
use amax_contracts.System.Elect.Queue.Places.{
  leave_places, to_first, to_upper, to_prev, to_tail, drop_end, drop_below, keep_end, to_end,
  next_swapped, swap_next, out_of_backup,
}
use amax_contracts.System.Elect.Queue.Process.{within_backup}
use amax_contracts.System.Elect.Queue.Balance.{shorter_over-IsOff, stays_least}
use amax_contracts.System.Elect.Queue.Steady.{
  Keeps, Keeps-leave_places, Keeps-to_first, Keeps-to_upper, Keeps-to_prev, Keeps-to_tail,
  Keeps-IsOff,
}
use amax_contracts.System.Elect.Queue.Moves.{
  Even, add_backup-Even, del_backup-Even, del_backup-Under, modified_backup-Even,
}

module _ {A : Type 0} (env : Env A) (m b : ℤ) (c : ℕ)
    (top : env.max_backup_producer_count < 4294967296) where
  pub Keeps-Even : (w w' : Work A) → Keeps env w w' → Even env m b c top w → Even env m b c top w'
  Keeps-Even w w' k h = Keeps-IsOff env m b c (pos 0) (pos 0) w w' k h

  -- A producer that leaves a queue that is not at its shortest.
  shortened :
      (new : ElectedInfo A) (w x w' : Work A)
      → (w.beq.last_producer_count == 3) ≡ false
      → Keeps env w x
      → del_backup new (shorter env x) ≡ ok w'
      → Even env m b c top w
      → Even env m b c top w'
  shortened new w x w' other k e h =
      let (k0, k1, k2, same_count) = k in
      del_backup-Even env m b c top new (shorter env x) w' e
        (shorter_over-IsOff env m b c (pos 0) x top (rw same_count other) (Keeps-Even w x k h))

  drop_end-Even :
      (old new : ElectedInfo A) (w w' : Work A)
      → (w.beq.last_producer_count == 3) ≡ false
      → drop_end env old new w ≡ ok w'
      → Even env m b c top w
      → Even env m b c top w'
  unfolding drop_end
  drop_end-Even old new w w' other e h =
      with_ok (leave_places env old w) (λ m q. ground arith)
        λ x qx.
          shortened new w (record x { beq = record x.beq { tail_next = new } }) w' other
            (Keeps-leave_places env old w x qx) (ground arith) h

  drop_below-Even :
      (old new : ElectedInfo A) (w w' : Work A)
      → (w.beq.last_producer_count == 3) ≡ false
      → drop_below env old new w ≡ ok w'
      → Even env m b c top w
      → Even env m b c top w'
  unfolding drop_below
  drop_below-Even old new w w' other e h =
      with_ok (leave_places env old w) (λ m q. ground arith)
        λ x qx. shortened new w x w' other (Keeps-leave_places env old w x qx) (ground arith) h

  keep_end-Even :
      (old new : ElectedInfo A) (w w' : Work A)
      → keep_end env old new w ≡ ok w'
      → Even env m b c top w
      → Even env m b c top w'
  unfolding keep_end
  keep_end-Even old new w w' e h =
      with_ok (to_tail env old new w) (λ m q. ground arith)
        λ x qx.
          modified_backup-Even env m b c top old new x w' (ground arith)
            (Keeps-Even w x (Keeps-to_tail env old new w x qx) h)

  to_end-Even :
      (old new : ElectedInfo A) (w w' : Work A)
      → to_end env old new w ≡ ok w'
      → Even env m b c top w
      → Even env m b c top w'
  unfolding to_end
  to_end-Even old new w w' e h =
      with_ok (stays env new w.beq.last_producer_count) (λ m q. ground arith)
        λ stay q. elim (Bool-cases stay) [
          | inl s ↦ keep_end-Even old new w w' (ground arith) h
          | inr s ↦
              let other = stays_least env m b c new w.beq.last_producer_count (ground arith) in
              drop_end-Even old new w w' other (ground arith) h
        ]

  swap_next-Even :
      (old new : ElectedInfo A) (w w' : Work A)
      → swap_next env old new w ≡ ok w'
      → Even env m b c top w
      → Even env m b c top w'
  unfolding swap_next
  swap_next-Even old new w w' e h =
      with_ok (same env.sdk old w.beq.tail) (λ m q. ground arith)
        λ is_tail q1.
          with_ok (same env.sdk old w.meq.tail_next) (λ m q. ground arith)
            λ is_next q2.
              let moved = next_swapped env is_tail is_next w in
              with_ok (del_backup new moved) (λ m q. ground arith)
                λ x qx.
                  add_backup-Even env m b c top w.beq.tail_next x w' (ground arith)
                    (del_backup-Under env m b c top new moved x qx h)

  out_of_backup-Even :
      (old new : ElectedInfo A) (w w' : Work A)
      → out_of_backup env old new w ≡ ok w'
      → Even env m b c top w
      → Even env m b c top w'
  unfolding out_of_backup
  out_of_backup-Even old new w w' e h =
      with_ok (stays env w.beq.tail_next w.beq.last_producer_count) (λ m q. ground arith)
        λ stay q. elim (Bool-cases stay) [
          | inl s ↦ swap_next-Even old new w w' (ground arith) h
          | inr s ↦
              drop_below-Even old new w w'
                (stays_least env m b c w.beq.tail_next w.beq.last_producer_count (ground arith))
                (ground arith) h
        ]

  pub within_backup-Even :
      (old new : ElectedInfo A) (w w' : Work A)
      → within_backup env old new w ≡ ok w'
      → Even env m b c top w
      → Even env m b c top w'
  unfolding within_backup
  within_backup-Even old new w w' e h =
      with_ok (at_least env.sdk new w.meq.tail_next) (λ m q. ground arith)
        λ first q1. elim (Bool-cases first) [
          | inl s ↦
              with_ok (to_first env old new w) (λ m q. ground arith)
                λ x qx.
                  modified_backup-Even env m b c top old new x w' (ground arith)
                    (Keeps-Even w x (Keeps-to_first env old new w x qx) h)
          | inr s ↦
              with_ok (at_least env.sdk new w.beq.tail_prev) (λ m q. ground arith)
                λ upper q2. elim (Bool-cases upper) [
                  | inl t ↦
                      with_ok (to_upper env old new w) (λ m q. ground arith)
                        λ x qx.
                          modified_backup-Even env m b c top old new x w' (ground arith)
                            (Keeps-Even w x (Keeps-to_upper env old new w x qx) h)
                  | inr t ↦
                      with_ok (at_least env.sdk new w.beq.tail) (λ m q. ground arith)
                        λ prev q3. elim (Bool-cases prev) [
                          | inl u ↦
                              with_ok (to_prev env old new w) (λ m q. ground arith)
                                λ x qx.
                                  modified_backup-Even env m b c top old new x w' (ground arith)
                                    (Keeps-Even w x (Keeps-to_prev env old new w x qx) h)
                          | inr u ↦
                              with_ok (larger env.sdk new w.beq.tail_next) (λ m q. ground arith)
                                λ end q4. elim (Bool-cases end) [
                                  | inl v ↦ to_end-Even old new w w' (ground arith) h
                                  | inr v ↦ out_of_backup-Even old new w w' (ground arith) h
                                ]
                        ]
                ]
        ]
