-- ===== src/System/Elect/Queue/Balance.antt =====
-- The lengths of the queues and the changes that are proposed go together.
use amax_contracts.Common.{ℕ, ◌+◌, ◌-◌, ◌≤◌, ◌<◌, ◌≡◌, false, ◌==◌, ok, arith, with_ok}
use amax_contracts.Common.Int.{ℤ, pos, negsuc, ◌+ℤ◌, int_laws}
use amax_contracts.System.Elect.{ElectedInfo}
use amax_contracts.System.Elect.Changes.{add, modify, del}
use amax_contracts.System.Elect.Queue.{
  Env, Work, incremented, decremented, is_prod_votes_valid, add_main, del_main, modify_main,
  add_backup, del_backup, modify_backup,
}
use amax_contracts.System.Elect.Queue.Nets.{net, IsSorted, add-Counts, modify-Counts, del-Counts}
use amax_contracts.System.Elect.Queue.Steps.{stays, shorter, longer}

-- Net changes that follow another by `d`.
shift : (x y m i d k : ℤ) → x ≡ m +ℤ i → y ≡ x +ℤ d → k ≡ i +ℤ d → y ≡ m +ℤ k
shift x y m i d k e f g = grind int_laws

less_one : (x b : ℤ) (n : ℕ) → x ≡ b +ℤ pos (n + 1) +ℤ negsuc 0 → x ≡ b +ℤ pos n +ℤ pos 0
less_one x b n e = grind int_laws

over_one : (x b : ℤ) (n : ℕ) → x ≡ b +ℤ pos (n + 1) +ℤ pos 0 → x ≡ b +ℤ pos n +ℤ pos 1
over_one x b n e = grind int_laws

more_one : (x b : ℤ) (n : ℕ) → x ≡ b +ℤ pos n +ℤ pos 1 → x ≡ b +ℤ pos (n + 1) +ℤ pos 0
more_one x b n e = grind int_laws

module _ {A : Type 0} (env : Env A) (m b : ℤ) (c : ℕ) where
  -- The main changes add `i` more than `m`, for a queue that is `c` long; the backup changes add
  -- `j` more than `b` and the length of the backup queue, which is in its bounds.
  abbrev pub IsOff : ℤ → ℤ → Work A → Type 0
  IsOff i j w =
      IsSorted w.main_changes
      × IsSorted w.backup_changes
      × (net w.main_changes ≡ m +ℤ i)
      × (w.meq.last_producer_count ≡ c)
      × (net w.backup_changes ≡ b +ℤ pos w.beq.last_producer_count +ℤ j)
      × (3 ≤ w.beq.last_producer_count)
      × (w.beq.last_producer_count ≤ env.max_backup_producer_count)

  pub add_main-IsOff :
      (i j k : ℤ) (p : ElectedInfo A) (w w' : Work A)
      → add_main p w ≡ ok w'
      → k ≡ i +ℤ pos 1
      → IsOff i j w
      → IsOff k j w'
  unfolding add_main
  add_main-IsOff i j k p w w' h e (s, t, x, y, z, u, v) =
      with_ok (add w.main_changes p.name p.authority) (λ m q. ground arith)
        λ l q.
          let result : w' ≡ record w { main_changes = l } = ground arith in
          let (sorted, counted) = add-Counts w.main_changes l p.name p.authority s q in
          rw result
            (sorted, t, shift (net w.main_changes) (net l) m i (pos 1) k x counted e, y, z, u, v)

  pub del_main-IsOff :
      (i j k : ℤ) (p : ElectedInfo A) (w w' : Work A)
      → del_main p w ≡ ok w'
      → k ≡ i +ℤ negsuc 0
      → IsOff i j w
      → IsOff k j w'
  unfolding del_main
  del_main-IsOff i j k p w w' h e (s, t, x, y, z, u, v) =
      with_ok (del w.main_changes p.name) (λ m q. ground arith)
        λ l q.
          let result : w' ≡ record w { main_changes = l } = ground arith in
          let (sorted, counted) = del-Counts w.main_changes l p.name s q in
          rw result
            (sorted, t, shift (net w.main_changes) (net l) m i (negsuc 0) k x counted e, y, z, u, v)

  pub modify_main-IsOff :
      (i j : ℤ) (p : ElectedInfo A) (w w' : Work A)
      → modify_main p w ≡ ok w'
      → IsOff i j w
      → IsOff i j w'
  unfolding modify_main
  modify_main-IsOff i j p w w' h (s, t, x, y, z, u, v) =
      with_ok (modify w.main_changes p.name p.authority) (λ m q. ground arith)
        λ l q.
          let result : w' ≡ record w { main_changes = l } = ground arith in
          let (sorted, counted) = modify-Counts w.main_changes l p.name p.authority s q in
          rw result (
            sorted,
            t,
            shift (net w.main_changes) (net l) m i (pos 0) i x counted (omega int_laws),
            y,
            z,
            u,
            v,
          )

  pub add_backup-IsOff :
      (i j k : ℤ) (p : ElectedInfo A) (w w' : Work A)
      → add_backup p w ≡ ok w'
      → k ≡ j +ℤ pos 1
      → IsOff i j w
      → IsOff i k w'
  unfolding add_backup
  add_backup-IsOff i j k p w w' h e (s, t, x, y, z, u, v) =
      with_ok (add w.backup_changes p.name p.authority) (λ m q. ground arith)
        λ l q.
          let result : w' ≡ record w { backup_changes = l } = ground arith in
          let (sorted, counted) = add-Counts w.backup_changes l p.name p.authority t q in
          rw result (
            s,
            sorted,
            x,
            y,
            shift (net w.backup_changes) (net l) (b +ℤ pos w.beq.last_producer_count) j (pos 1) k z
                counted e,
            u,
            v,
          )

  pub del_backup-IsOff :
      (i j k : ℤ) (p : ElectedInfo A) (w w' : Work A)
      → del_backup p w ≡ ok w'
      → k ≡ j +ℤ negsuc 0
      → IsOff i j w
      → IsOff i k w'
  unfolding del_backup
  del_backup-IsOff i j k p w w' h e (s, t, x, y, z, u, v) =
      with_ok (del w.backup_changes p.name) (λ m q. ground arith)
        λ l q.
          let result : w' ≡ record w { backup_changes = l } = ground arith in
          let (sorted, counted) = del-Counts w.backup_changes l p.name t q in
          rw result (
            s,
            sorted,
            x,
            y,
            shift (net w.backup_changes) (net l) (b +ℤ pos w.beq.last_producer_count) j (negsuc 0) k
                z counted e,
            u,
            v,
          )

  pub modify_backup-IsOff :
      (i j : ℤ) (p : ElectedInfo A) (w w' : Work A)
      → modify_backup p w ≡ ok w'
      → IsOff i j w
      → IsOff i j w'
  unfolding modify_backup
  modify_backup-IsOff i j p w w' h (s, t, x, y, z, u, v) =
      with_ok (modify w.backup_changes p.name p.authority) (λ m q. ground arith)
        λ l q.
          let result : w' ≡ record w { backup_changes = l } = ground arith in
          let (sorted, counted) = modify-Counts w.backup_changes l p.name p.authority t q in
          rw result (
            s,
            sorted,
            x,
            y,
            shift (net w.backup_changes) (net l) (b +ℤ pos w.beq.last_producer_count) j (pos 0) j z
                counted (omega int_laws),
            u,
            v,
          )

  pub shorter-IsOff :
      (i : ℤ) (w : Work A)
      → env.max_backup_producer_count < 4294967296
      → (w.beq.last_producer_count == 3) ≡ false
      → IsOff i (negsuc 0) w
      → IsOff i (pos 0) (shorter env w)
  shorter-IsOff i w top other (s, t, x, y, z, u, v) =
      let n = w.beq.last_producer_count in
      let above : 4 ≤ n = ground arith in
      let one_less : decremented n ≡ n - 1 = omega arith in
      let back : n - 1 + 1 ≡ n = omega arith in
      rw one_less (
        s,
        t,
        x,
        y,
        less_one (net w.backup_changes) b (n - 1) (rw back z),
        omega arith,
        omega arith,
      )

  pub shorter_over-IsOff :
      (i : ℤ) (w : Work A)
      → env.max_backup_producer_count < 4294967296
      → (w.beq.last_producer_count == 3) ≡ false
      → IsOff i (pos 0) w
      → IsOff i (pos 1) (shorter env w)
  shorter_over-IsOff i w top other (s, t, x, y, z, u, v) =
      let n = w.beq.last_producer_count in
      let above : 4 ≤ n = ground arith in
      let one_less : decremented n ≡ n - 1 = omega arith in
      let back : n - 1 + 1 ≡ n = omega arith in
      rw one_less (
        s,
        t,
        x,
        y,
        over_one (net w.backup_changes) b (n - 1) (rw back z),
        omega arith,
        omega arith,
      )

  pub longer-IsOff :
      (i : ℤ) (w : Work A)
      → env.max_backup_producer_count < 4294967296
      → w.beq.last_producer_count < env.max_backup_producer_count
      → IsOff i (pos 1) w
      → IsOff i (pos 0) (longer env w)
  longer-IsOff i w top room (s, t, x, y, z, u, v) =
      let n = w.beq.last_producer_count in
      let one_more : incremented n ≡ n + 1 = omega arith in
      rw one_more (s, t, x, y, more_one (net w.backup_changes) b n z, omega arith, omega arith)

  pub stays_least : (p : ElectedInfo A) (n : ℕ) → stays env p n ≡ ok false → (n == 3) ≡ false
  unfolding stays
  stays_least p n h =
      with_ok (is_prod_votes_valid env p) (λ m q. ground arith) λ valid q. ground arith
