-- ===== src/System/Elect/Queue/Moves.antt =====
-- Each move of a producer keeps the balance of the changes and the lengths of the queues.
use amax_contracts.Common.{
  ℕ, ◌<◌, ◌≡◌, Bool, true, false, ◌==◌, if◌then◌else◌, ok, arith, with_ok, Bool-cases, inl, inr,
}
use amax_contracts.Common.Int.{ℤ, pos, negsuc, int_laws}
use amax_contracts.System.Elect.{ElectedInfo, less, larger, at_least, same}
use amax_contracts.System.Elect.Queue.{
  Env, Work, cleared, is_empty, fetch_next, add_main, del_main, add_backup, del_backup,
}
use amax_contracts.System.Elect.Queue.Steps.{
  stays, main_top, main_middle, main_end, shorter, longer, below_tail, below_next, above_tail,
  behind_main, leave_main, modified_main, modified_backup, from_main, pop_tail, with_next,
  push_over, push_fetched, push_backup, main_grown, into_main,
}
use amax_contracts.System.Elect.Queue.Balance.{
  IsOff, add_main-IsOff, del_main-IsOff, modify_main-IsOff, add_backup-IsOff, del_backup-IsOff,
  modify_backup-IsOff, shorter-IsOff, longer-IsOff, stays_least,
}
use amax_contracts.System.Elect.Queue.Steady.{
  Keeps-main_top, Keeps-main_middle, Keeps-from_backup, Keeps-IsOff,
}

module _ {A : Type 0} (env : Env A) (m b : ℤ) (c : ℕ)
    (top : env.max_backup_producer_count < 4294967296) where
  -- One more than the queues and changes balance, as many, or one less.
  abbrev pub Even : Work A → Type 0
  Even w = IsOff env m b c (pos 0) (pos 0) w

  abbrev pub Over : Work A → Type 0
  Over w = IsOff env m b c (pos 0) (pos 1) w

  abbrev pub Under : Work A → Type 0
  Under w = IsOff env m b c (pos 0) (negsuc 0) w

  pub add_backup-Even :
      (p : ElectedInfo A) (w w' : Work A) → add_backup p w ≡ ok w' → Under w → Even w'
  add_backup-Even p w w' e h =
      add_backup-IsOff env m b c (pos 0) (negsuc 0) (pos 0) p w w' e (omega int_laws) h

  pub add_backup-Over :
      (p : ElectedInfo A) (w w' : Work A) → add_backup p w ≡ ok w' → Even w → Over w'
  add_backup-Over p w w' e h =
      add_backup-IsOff env m b c (pos 0) (pos 0) (pos 1) p w w' e (omega int_laws) h

  pub del_backup-Even :
      (p : ElectedInfo A) (w w' : Work A) → del_backup p w ≡ ok w' → Over w → Even w'
  del_backup-Even p w w' e h =
      del_backup-IsOff env m b c (pos 0) (pos 1) (pos 0) p w w' e (omega int_laws) h

  pub del_backup-Under :
      (p : ElectedInfo A) (w w' : Work A) → del_backup p w ≡ ok w' → Even w → Under w'
  del_backup-Under p w w' e h =
      del_backup-IsOff env m b c (pos 0) (pos 0) (negsuc 0) p w w' e (omega int_laws) h

  pub modified_main-Even :
      (old new : ElectedInfo A) (w w' : Work A)
      → modified_main env old new w ≡ ok w'
      → Even w
      → Even w'
  unfolding modified_main
  modified_main-Even old new w w' e h =
      elim (Bool-cases (env.authority_eq new.authority old.authority)) [
        | inl q ↦ let result : w' ≡ w = ground arith in rw result h
        | inr q ↦ modify_main-IsOff env m b c (pos 0) (pos 0) new w w' (ground arith) h
      ]

  pub modified_backup-Even :
      (old new : ElectedInfo A) (w w' : Work A)
      → modified_backup env old new w ≡ ok w'
      → Even w
      → Even w'
  unfolding modified_backup
  modified_backup-Even old new w w' e h =
      elim (Bool-cases (env.authority_eq new.authority old.authority)) [
        | inl q ↦ let result : w' ≡ w = ground arith in rw result h
        | inr q ↦ modify_backup-IsOff env m b c (pos 0) (pos 0) new w w' (ground arith) h
      ]

  behind_main-Even :
      (new : ElectedInfo A) (w w' : Work A) → behind_main env new w ≡ ok w' → Under w → Even w'
  unfolding behind_main above_tail below_tail below_next
  behind_main-Even new w w' e h =
      with_ok (larger env.sdk new w.beq.tail) (λ m q. ground arith)
        λ over qo. elim (Bool-cases over) [
          | inl o ↦
              with_ok (less env.sdk new w.beq.tail_prev) (λ m q. ground arith)
                λ under q.
                  add_backup-Even new
                    (record w {
                      beq = record w.beq { tail_prev = if under then new else w.beq.tail_prev };
                    })
                    w' (ground arith) h
          | inr o ↦
              with_ok (larger env.sdk new w.beq.tail_next) (λ m q. ground arith)
                λ over_next qn. elim (Bool-cases over_next) [
                  | inl n ↦
                      with_ok (stays env new w.beq.last_producer_count) (λ m q. ground arith)
                        λ stay q. elim (Bool-cases stay) [
                          | inl s ↦
                              add_backup-Even new
                                (record w {
                                  beq = record w.beq { tail_prev = w.beq.tail; tail = new };
                                })
                                w' (ground arith) h
                          | inr s ↦
                              let put = record w { beq = record w.beq { tail_next = new } } in
                              let result : w' ≡ shorter env put = ground arith in
                              rw result (
                                shorter-IsOff env m b c (pos 0) put top
                                  (stays_least env m b c new w.beq.last_producer_count
                                    (ground arith))
                                  h)
                        ]
                  | inr n ↦
                      with_ok (stays env w.beq.tail_next w.beq.last_producer_count)
                        (λ m q. ground arith)
                        λ stay q. elim (Bool-cases stay) [
                          | inl s ↦
                              add_backup-Even w.beq.tail_next
                                (record w {
                                  beq = record w.beq {
                                    tail_prev = w.beq.tail;
                                    tail = w.beq.tail_next;
                                    tail_next = cleared env w.beq.tail_next;
                                  };
                                  refresh_backup_tail_next = true;
                                })
                                w' (ground arith) h
                          | inr s ↦
                              let result : w' ≡ shorter env w = ground arith in
                              rw result (
                                shorter-IsOff env m b c (pos 0) w top
                                  (stays_least env m b c w.beq.tail_next w.beq.last_producer_count
                                    (ground arith))
                                  h)
                        ]
                ]
        ]

  leave_main-Even :
      (new : ElectedInfo A) (w w' : Work A) → leave_main env new w ≡ ok w' → Even w → Even w'
  unfolding leave_main
  leave_main-Even new w w' e h =
      with_ok (del_main new w) (λ m q. ground arith)
        λ x qx.
          with_ok (del_backup w.meq.tail_next x) (λ m q. ground arith)
            λ y qy.
              with_ok (add_main w.meq.tail_next y) (λ m q. ground arith)
                λ z qz.
                  with_ok (behind_main env new z) (λ m q. ground arith)
                    λ d qd.
                      let first =
                        del_main-IsOff env m b c (pos 0) (pos 0) (negsuc 0) new w x qx
                          (omega int_laws) h in
                      let second =
                        del_backup-IsOff env m b c (negsuc 0) (pos 0) (negsuc 0) w.meq.tail_next x y
                          qy (omega int_laws) first in
                      let third =
                        add_main-IsOff env m b c (negsuc 0) (negsuc 0) (pos 0) w.meq.tail_next y z
                          qz (omega int_laws) second in
                      let result : w' ≡ record d {
                        meq = record d.meq {
                          tail_prev =
                              if new.name == d.meq.tail.name then d.meq.tail_prev else d.meq.tail;
                          tail = d.meq.tail_next;
                          tail_next = cleared env d.meq.tail_next;
                        };
                        refresh_main_tail_next = true;
                      } =
                        ground arith in
                      rw result (behind_main-Even new z d qd third)

  pub from_main-Even :
      (old new : ElectedInfo A) (w w' : Work A) → from_main env old new w ≡ ok w' → Even w → Even w'
  unfolding from_main
  from_main-Even old new w w' e h =
      with_ok (at_least env.sdk new w.meq.tail_prev) (λ m q. ground arith)
        λ first q1. elim (Bool-cases first) [
          | inl a ↦ modified_main-Even old new (main_top env new w) w' (ground arith) (
              Keeps-IsOff env m b c (pos 0) (pos 0) w (main_top env new w)
                (Keeps-main_top env new w) h)
          | inr a ↦
              with_ok (at_least env.sdk new w.meq.tail) (λ m q. ground arith)
                λ second q2. elim (Bool-cases second) [
                  | inl d ↦ modified_main-Even old new (main_middle env new w) w' (ground arith) (
                      Keeps-IsOff env m b c (pos 0) (pos 0) w (main_middle env new w)
                        (Keeps-main_middle env new w) h)
                  | inr d ↦
                      with_ok (larger env.sdk new w.meq.tail_next) (λ m q. ground arith)
                        λ last q3. elim (Bool-cases last) [
                          | inl f ↦
                              modified_main-Even old new (main_end env new w) w' (ground arith) h
                          | inr f ↦ leave_main-Even new w w' (ground arith) h
                        ]
                ]
        ]

  pop_tail-Even : (w w' : Work A) → pop_tail env w ≡ ok w' → Over w → Even w'
  unfolding pop_tail
  pop_tail-Even w w' e h =
      with_ok (del_backup w.beq.tail w) (λ m q. ground arith)
        λ x qx.
          let result : w' ≡ record x {
            beq = record x.beq {
              tail_next = x.beq.tail;
              tail = x.beq.tail_prev;
              tail_prev = cleared env x.beq.tail_prev;
            };
            refresh_backup_tail_prev = true;
          } =
            ground arith in
          rw result (del_backup-Even w.beq.tail w x qx h)

  push_over-Even :
      (next : ElectedInfo A) (w w' : Work A)
      → push_over env next w ≡ ok w'
      → w.beq.last_producer_count < env.max_backup_producer_count
      → Over w
      → Even w'
  unfolding push_over
  push_over-Even next w w' e room h = elim (Bool-cases (is_empty next)) [
    | inl f ↦ pop_tail-Even (with_next env next w) w' (ground arith) h
    | inr f ↦
        let result : w' ≡ longer env (with_next env next w) = ground arith in
        rw result (longer-IsOff env m b c (pos 0) (with_next env next w) top room h)
  ]

  push_fetched-Even :
      (w w' : Work A)
      → push_fetched env w ≡ ok w'
      → w.beq.last_producer_count < env.max_backup_producer_count
      → Over w
      → Even w'
  unfolding push_fetched
  push_fetched-Even w w' e room h =
      with_ok (fetch_next env w.beq.tail w.beq.tail_next false) (λ m q. ground arith)
        λ next q. push_over-Even next w w' (ground arith) room h

  push_backup-Even :
      (old : ElectedInfo A) (w w' : Work A) → push_backup env old w ≡ ok w' → Over w → Even w'
  unfolding push_backup
  push_backup-Even old w w' e h =
      elim (Bool-cases (w.beq.last_producer_count == env.max_backup_producer_count)) [
        | inl full ↦ pop_tail-Even w w' (ground arith) h
        | inr full ↦
            let (s, t, k, l, n, o, u) = h in
            let room : w.beq.last_producer_count < env.max_backup_producer_count = ground arith in
            with_ok (same env.sdk old w.beq.tail_next) (λ m q. ground arith)
              λ is_next q. elim (Bool-cases is_next) [
                | inl r ↦ push_fetched-Even w w' (ground arith) room h
                | inr r ↦
                    let result : w' ≡ longer env w = ground arith in
                    rw result (longer-IsOff env m b c (pos 0) w top room h)
              ]
      ]

  grown-Over :
      (over : Bool) (new : ElectedInfo A) (z : Work A)
      → Over z
      → Over (
          if over
          then main_grown env z
          else record z { meq = record z.meq { tail_next = z.meq.tail; tail = new } })
  grown-Over true new z h = h
  grown-Over false new z h = h

  pub into_main-Even :
      (old new : ElectedInfo A) (w w' : Work A) → into_main env old new w ≡ ok w' → Even w → Even w'
  unfolding into_main
  into_main-Even old new w w' e h =
      with_ok (del_main w.meq.tail w) (λ m q. ground arith)
        λ x qx.
          with_ok (add_main new x) (λ m q. ground arith)
            λ y qy.
              with_ok (add_backup w.meq.tail y) (λ m q. ground arith)
                λ z qz.
                  with_ok (larger env.sdk new w.meq.tail_prev) (λ m q. ground arith)
                    λ over qo.
                      let first =
                        del_main-IsOff env m b c (pos 0) (pos 0) (negsuc 0) w.meq.tail w x qx
                          (omega int_laws) h in
                      let second =
                        add_main-IsOff env m b c (negsuc 0) (pos 0) (pos 0) new x y qy
                          (omega int_laws) first in
                      let third = add_backup-Over w.meq.tail y z qz second in
                      let grown = if over then main_grown env z else record z {
                        meq = record z.meq { tail_next = z.meq.tail; tail = new };
                      } in
                      let fourth = grown-Over over new z third in
                      with_ok (at_least env.sdk old w.beq.tail) (λ m q. ground arith)
                        λ was_backup qb. elim (Bool-cases was_backup) [
                          | inl r ↦
                              with_ok (del_backup new grown) (λ m q. ground arith)
                                λ v qv.
                                  Keeps-IsOff env m b c (pos 0) (pos 0) v w'
                                    (Keeps-from_backup env old v w' (ground arith))
                                    (del_backup-Even new grown v qv fourth)
                          | inr r ↦ push_backup-Even old grown w' (ground arith) fourth
                        ]
