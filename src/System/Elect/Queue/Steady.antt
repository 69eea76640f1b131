-- ===== src/System/Elect/Queue/Steady.antt =====
-- Steps that only move the places that are kept in the queues.
use amax_contracts.Common.{
  ℕ, ◌≡◌, true, false, if◌then◌else◌, ok, arith, with_ok, Bool-cases, inl, inr,
}
use amax_contracts.Common.Int.{ℤ}
use amax_contracts.System.Elect.{ElectedInfo, same}
use amax_contracts.System.Elect.Queue.{Env, Work, fetch_prev, fetch_next}
use amax_contracts.System.Elect.Queue.Steps.{main_top, main_middle, from_backup}
use amax_contracts.System.Elect.Queue.Places.{leave_places, to_first, to_upper, to_prev, to_tail}
use amax_contracts.System.Elect.Queue.Process.{refresh}
use amax_contracts.System.Elect.Queue.Balance.{IsOff}

module _ {A : Type 0} (env : Env A) where
  abbrev pub Keeps : Work A → Work A → Type 0
  Keeps w w' =
      (w'.main_changes ≡ w.main_changes)
      × (w'.meq.last_producer_count ≡ w.meq.last_producer_count)
      × (w'.backup_changes ≡ w.backup_changes)
      × (w'.beq.last_producer_count ≡ w.beq.last_producer_count)

  pub Keeps-main_top : (new : ElectedInfo A) (w : Work A) → Keeps w (main_top env new w)
  Keeps-main_top new w = ground arith

  pub Keeps-main_middle : (new : ElectedInfo A) (w : Work A) → Keeps w (main_middle env new w)
  Keeps-main_middle new w = ground arith

  pub Keeps-from_backup :
      (old : ElectedInfo A) (w w' : Work A) → from_backup env old w ≡ ok w' → Keeps w w'
  unfolding from_backup
  Keeps-from_backup old w w' h =
      with_ok (same env.sdk old w.beq.tail_prev) (λ m q. ground arith)
        λ is_prev a. elim (Bool-cases is_prev) [
          | inl p ↦ ground arith
          | inr p ↦
              with_ok (same env.sdk old w.beq.tail) (λ m q. ground arith) λ is_tail d. ground arith
        ]

  pub Keeps-leave_places :
      (old : ElectedInfo A) (w w' : Work A) → leave_places env old w ≡ ok w' → Keeps w w'
  unfolding leave_places
  Keeps-leave_places old w w' h =
      with_ok (same env.sdk old w.beq.tail) (λ m q. ground arith)
        λ is_tail a. elim (Bool-cases is_tail) [
          | inl p ↦ ground arith
          | inr p ↦
              with_ok (same env.sdk old w.beq.tail_prev) (λ m q. ground arith)
                λ is_prev d. elim (Bool-cases is_prev) [
                  | inl r ↦ ground arith
                  | inr r ↦
                      with_ok (same env.sdk old w.meq.tail_next) (λ m q. ground arith)
                        λ is_next e. ground arith
                ]
        ]

  pub Keeps-to_first :
      (old new : ElectedInfo A) (w w' : Work A) → to_first env old new w ≡ ok w' → Keeps w w'
  unfolding to_first
  Keeps-to_first old new w w' h =
      with_ok (same env.sdk old w.beq.tail_prev) (λ m q. ground arith)
        λ is_prev a.
          with_ok (if is_prev then ok false else same env.sdk old w.beq.tail) (λ m q. ground arith)
            λ is_tail d. ground arith

  pub Keeps-to_upper :
      (old new : ElectedInfo A) (w w' : Work A) → to_upper env old new w ≡ ok w' → Keeps w w'
  unfolding to_upper
  Keeps-to_upper old new w w' h =
      with_ok (same env.sdk old w.meq.tail_next) (λ m q. ground arith)
        λ is_next a. elim (Bool-cases is_next) [
          | inl p ↦ ground arith
          | inr p ↦
              with_ok (same env.sdk old w.beq.tail_prev) (λ m q. ground arith)
                λ is_prev d. elim (Bool-cases is_prev) [
                  | inl r ↦
                      with_ok (same env.sdk new w.beq.tail_prev) (λ m q. ground arith)
                        λ stay e. ground arith
                  | inr r ↦
                      with_ok (same env.sdk old w.beq.tail) (λ m q. ground arith)
                        λ is_tail e. ground arith
                ]
        ]

  pub Keeps-to_prev :
      (old new : ElectedInfo A) (w w' : Work A) → to_prev env old new w ≡ ok w' → Keeps w w'
  unfolding to_prev
  Keeps-to_prev old new w w' h =
      with_ok (same env.sdk old w.beq.tail) (λ m q. ground arith)
        λ is_tail a. elim (Bool-cases is_tail) [
          | inl p ↦ ground arith
          | inr p ↦
              with_ok (same env.sdk old w.meq.tail_next) (λ m q. ground arith)
                λ is_next d. ground arith
        ]

  pub Keeps-to_tail :
      (old new : ElectedInfo A) (w w' : Work A) → to_tail env old new w ≡ ok w' → Keeps w w'
  unfolding to_tail
  Keeps-to_tail old new w w' h =
      with_ok (same env.sdk old w.beq.tail) (λ m q. ground arith)
        λ is_tail a.
          with_ok (if is_tail then ok false else same env.sdk old w.meq.tail_next)
            (λ m q. ground arith) λ is_next d. ground arith

  pub Keeps-refresh : (w w' : Work A) → refresh env w ≡ ok w' → Keeps w w'
  unfolding refresh
  Keeps-refresh w w' h =
      with_ok
        (if w.refresh_main_tail_prev
          then fetch_prev env w.meq.tail w.meq.tail_prev
          else ok w.meq.tail_prev)
        (λ m q. ground arith)
        λ a qa.
          with_ok
            (if w.refresh_main_tail_next
              then fetch_next env w.meq.tail w.meq.tail_next true
              else ok w.meq.tail_next)
            (λ m q. ground arith)
            λ b qb.
              with_ok
                (if w.refresh_backup_tail_prev
                  then fetch_prev env w.beq.tail w.beq.tail_prev
                  else ok w.beq.tail_prev)
                (λ m q. ground arith)
                λ d qd.
                  with_ok
                    (if w.refresh_backup_tail_next
                      then fetch_next env w.beq.tail w.beq.tail_next true
                      else ok w.beq.tail_next)
                    (λ m q. ground arith) λ e qe. ground arith

module _ {A : Type 0} (env : Env A) (m b : ℤ) where
  pub Keeps-IsOff :
      (c : ℕ) (i j : ℤ) (w w' : Work A)
      → Keeps env w w'
      → IsOff env m b c i j w
      → IsOff env m b c i j w'
  Keeps-IsOff c i j w w' (k, l, n, o) h = rw k (rw l (rw n (rw o h)))
