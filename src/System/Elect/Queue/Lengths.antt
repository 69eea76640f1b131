-- ===== src/System/Elect/Queue/Lengths.antt =====
-- What a change of votes does to the lengths of the queues.
use amax_contracts.Common.{
  ℕ, ◌≤◌, ◌<◌, ◌≡◌, refl, sym, ◌∙◌, ok, arith, with_ok, Bool-cases, inl, inr,
}
use amax_contracts.Common.Int.{ℤ, pos, ◌+ℤ◌, ◌-ℤ◌, int_laws}
use amax_contracts.System.Elect.{ElectedInfo, less, larger, at_least}
use amax_contracts.System.Elect.Queue.{Env, Work}
use amax_contracts.System.Elect.Queue.Nets.{net, IsSorted}
use amax_contracts.System.Elect.Queue.Process.{
  move, refresh, Elected, start, finish, process, process_elected_producer,
}
use amax_contracts.System.Elect.Queue.Steady.{Keeps-refresh}
use amax_contracts.System.Elect.Queue.Moves.{Even, from_main-Even, into_main-Even}
use amax_contracts.System.Elect.Queue.Backup.{Keeps-Even, within_backup-Even}
use amax_contracts.System.Elect.Queue.Joins.{from_outside-Even}

module _ {A : Type 0} (env : Env A) (m b : ℤ) (c : ℕ)
    (top : env.max_backup_producer_count < 4294967296) where
  move-Even :
      (old new : ElectedInfo A) (w w' : Work A)
      → move env old new w ≡ ok w'
      → Even env m b c top w
      → Even env m b c top w'
  unfolding move
  move-Even old new w w' e h =
      with_ok (at_least env.sdk old w.meq.tail) (λ m q. ground arith)
        λ was_main q1. elim (Bool-cases was_main) [
          | inl s ↦ from_main-Even env m b c top old new w w' (ground arith) h
          | inr s ↦
              with_ok (larger env.sdk new w.meq.tail) (λ m q. ground arith)
                λ over q2. elim (Bool-cases over) [
                  | inl t ↦ into_main-Even env m b c top old new w w' (ground arith) h
                  | inr t ↦
                      with_ok (at_least env.sdk old w.beq.tail) (λ m q. ground arith)
                        λ was_backup q3. elim (Bool-cases was_backup) [
                          | inl u ↦ within_backup-Even env m b c top old new w w' (ground arith) h
                          | inr u ↦ from_outside-Even env m b c top old new w w' (ground arith) h
                        ]
                ]
        ]

-- From queues and changes of a state, with the bounds of the backup queue:
pub record IsBalanced {A : Type 0} (env : Env A) (st st' : Elected A) : Type 0 where
  pub main_sorted : IsSorted st'.changes.main_changes.changes
  pub backup_sorted : IsSorted st'.changes.backup_changes.changes
  pub same_length :
      st'.main_elected_queue.last_producer_count ≡ st.main_elected_queue.last_producer_count
  pub main_net : net st'.changes.main_changes.changes ≡ net st.changes.main_changes.changes
  pub backup_net :
      net st'.changes.backup_changes.changes +ℤ pos st.backup_elected_queue.last_producer_count
      ≡ net st.changes.backup_changes.changes +ℤ pos st'.backup_elected_queue.last_producer_count
  pub least : 3 ≤ st'.backup_elected_queue.last_producer_count
  pub most : st'.backup_elected_queue.last_producer_count ≤ env.max_backup_producer_count

zero_off : (x : ℤ) → x ≡ x +ℤ pos 0
zero_off x = omega int_laws

split_off : (x p : ℤ) → x ≡ x -ℤ p +ℤ p +ℤ pos 0
split_off x p = omega int_laws

joined_off : (x y p q : ℤ) → y ≡ x -ℤ p +ℤ q +ℤ pos 0 → y +ℤ p ≡ x +ℤ q
joined_off x y p q e = grind int_laws

module _ {A : Type 0} (env : Env A) where
  process-IsBalanced :
      (old new : ElectedInfo A) (st st' : Elected A)
      → env.max_backup_producer_count < 4294967296
      → IsBalanced env st st
      → process env old new st ≡ ok st'
      → IsBalanced env st st'
  unfolding process
  process-IsBalanced old new st st' top h e =
      let m = net st.changes.main_changes.changes in
      let n = net st.changes.backup_changes.changes in
      let p = pos st.backup_elected_queue.last_producer_count in
      with_ok (less env.sdk st.backup_elected_queue.tail_prev st.main_elected_queue.tail_next)
        (λ m q. ground arith)
        λ ordered q0.
          with_ok (move env old new (start env st)) (λ m q. ground arith)
            λ w q1.
              with_ok (refresh env w) (λ m q. ground arith)
                λ r q2.
                  let final : st' ≡ finish env st r = ground arith in
                  let even : Even env m (n -ℤ p) st.main_elected_queue.last_producer_count top
                      (start env st) =
                    (
                      h.main_sorted,
                      h.backup_sorted,
                      zero_off m,
                      refl,
                      split_off n p,
                      h.least,
                      h.most,
                    ) in
                  let moved =
                    move-Even env m (n -ℤ p) st.main_elected_queue.last_producer_count top old new
                      (start env st) w q1 even in
                  let (s, t, x, y, z, u, v) =
                    Keeps-Even env m (n -ℤ p) st.main_elected_queue.last_producer_count top w r
                      (Keeps-refresh env w r q2) moved in
                  rw final (record {
                    main_sorted = s;
                    backup_sorted = t;
                    same_length = y;
                    main_net = x ∙ sym (zero_off m);
                    backup_net =
                        joined_off n (net r.backup_changes) p (pos r.beq.last_producer_count) z;
                    least = u;
                    most = v;
                  })

  -- When the votes of a producer change, the changes that are proposed to the chain balance with
  -- the lengths of the queues: the main changes add as many producers as they take away, on top of
  -- what was proposed before, and the main queue keeps its length; the backup changes add exactly
  -- as many more than they take away as the backup queue gets longer. The backup queue stays
  -- between 3 and its greatest length, if the changes were sorted and the length was in those
  -- bounds before.
  pub process_elected_producer-IsBalanced :
      (old new : ElectedInfo A) (st st' : Elected A)
      → env.max_backup_producer_count < 4294967296
      → IsBalanced env st st
      → process_elected_producer env old new st ≡ ok st'
      → IsBalanced env st st'
  unfolding process_elected_producer
  process_elected_producer-IsBalanced old new st st' top h e = elim (Bool-cases env.is_init) [
    | inl q ↦ process-IsBalanced old new st st' top h (ground arith)
    | inr q ↦ let final : st' ≡ st = ground arith in rw final h
  ]
