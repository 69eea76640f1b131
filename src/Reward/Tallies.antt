-- ===== src/Reward/Tallies.antt =====
-- The tally of the votes under each action of amax.reward, and over any run.
use amax_contracts.Common.{
  ℕ, ◌≡◌, refl, ap, ◌∙◌, Bool, true, ◌&&◌, ◌==◌, if◌then◌else◌, some, List, arith, ok, with_ok,
  with_some, Option-cases, Bool-cases, inl, inr,
}
use amax_contracts.Common.Int.{ℤ, pos, ◌+ℤ◌, ◌-ℤ◌, int_laws}
use amax_contracts.Chain.{Name, Asset, asset, IsSdk}
use amax_contracts.Chain.Table.{
  Table, find, modify, modify_same, Rows, total, Rows-find, find-modify_same,
}
use amax_contracts.Reward.{
  vote_asset_0, Producer, Voter, State, Env, new_producer, new_voter, calc_rewards_per_vote,
  set_row_paid, row_or, allocate,
}
use amax_contracts.Reward.Merge.{compare_votes, emplace_all}
use amax_contracts.Reward.Operations.{
  regproducer, set_voter, votes_delta, change_vote, voteproducer, pay_rewards, add_rewards,
}
use amax_contracts.Reward.Rows.{find-set_row_paid, set_row_paid-Rows, total-set_row_paid}
use amax_contracts.Reward.Weights.{
  names, weight, weight-add, weight-zero, weight-negated, weight-compare_votes, weight-Weave,
  compare_votes-Weave, Ascending, names-emplace_all, is_sorted-Ascending,
}
use amax_contracts.Reward.Ballots.{old_votes, votes_of, names-allocate, votes_of-allocate}

-- A voter's votes, for each of its producers.
abbrev pub counted : Name → ℕ → ℕ → Voter → ℤ
counted k s n v = weight k (names v.producers) v.votes.amount

abbrev pub IsOrdered : ℕ → ℕ → Voter → Type 0
IsOrdered s n v = Ascending (names v.producers)

-- Each producer's votes are the sum of the votes of the voters who have it in their maps, and the
-- maps are in order.
pub record IsTallied (self : Name) (st : State) : Type 0 where
  pub tally : (k : Name) → votes_of self k st.producers ≡ total (counted k) st.voters
  pub ordered : Rows IsOrdered st.voters

abbrev pub voter_of : Env → Name → State → Voter
voter_of env voter st = row_or (find env.self voter st.voters) (new_voter env voter)

pub voter_of-IsOrdered :
    (env : Env) (voter : Name) (st : State)
    → Rows IsOrdered st.voters
    → Ascending (names (voter_of env voter st).producers)
voter_of-IsOrdered env voter st v = elim (Option-cases (find env.self voter st.voters)) [
  | inl e ↦ rw e tt
  | inr (w, e) ↦ rw e (Rows-find IsOrdered env.self voter w st.voters v e)
]

tallied : (p p' t t' old row : ℤ) → p' +ℤ old ≡ p +ℤ row → t' +ℤ old ≡ t +ℤ row → p ≡ t → p' ≡ t'
tallied p p' t t' old row a b c = grind int_laws

-- The producers' votes move as the voter's row does.
ballot_step :
    (env : Env) (voter : Name) (row : Voter) (rows : Table Producer) (voters : Table Voter)
    (st st' : State)
    → ((k : Name)
        → votes_of env.self k rows +ℤ counted k env.self voter (voter_of env voter st)
          ≡ votes_of env.self k st.producers +ℤ counted k env.self voter row)
    → Ascending (names row.producers)
    → set_row_paid (find env.self voter st.voters) env.self voter voter row st.voters ≡ ok voters
    → st'.producers ≡ rows
    → st'.voters ≡ voters
    → IsTallied env.self st
    → IsTallied env.self st'
ballot_step env voter row rows voters st st' moves order e p w s = record {
  tally = λ k. rw p (
      rw w (
        tallied (votes_of env.self k st.producers) (votes_of env.self k rows)
          (total (counted k) st.voters) (total (counted k) voters)
          (counted k env.self voter (voter_of env voter st)) (counted k env.self voter row)
          (moves k)
          (total-set_row_paid (counted k) env.self voter voter row (new_voter env voter) st.voters
            voters refl e)
          (s.tally k)));
  ordered =
      rw w
        (set_row_paid-Rows IsOrdered env.self voter voter row st.voters voters s.ordered order e);
}

set_voter-step :
    (env : Env) (voter : Name) (row : Voter) (rows : Table Producer) (st st' : State)
    → ((k : Name)
        → votes_of env.self k rows +ℤ counted k env.self voter (voter_of env voter st)
          ≡ votes_of env.self k st.producers +ℤ counted k env.self voter row)
    → Ascending (names row.producers)
    → set_voter env (find env.self voter st.voters) voter row rows st ≡ ok st'
    → IsTallied env.self st
    → IsTallied env.self st'
set_voter-step env voter row rows st st' moves order h s =
    with_ok (set_row_paid (find env.self voter st.voters) env.self voter voter row st.voters)
      (λ m q. ground arith)
      λ voters e.
        let final : st' ≡ record st { producers = rows; voters = voters } = ground arith in
        ballot_step env voter row rows voters st st' moves order e (rw final refl) (rw final refl) s

moved_by : (a b w w' d : ℤ) → b ≡ a +ℤ d → w' ≡ w +ℤ d → b +ℤ w ≡ a +ℤ w'
moved_by a b w w' d e f = grind int_laws

pub change_vote-IsTallied :
    (env : Env) (voter : Name) (votes : Asset) (is_adding : Bool) (st st' : State)
    → IsSdk env.sdk
    → change_vote env voter votes is_adding st ≡ ok st'
    → IsTallied env.self st
    → IsTallied env.self st'
unfolding change_vote
change_vote-IsTallied env voter votes is_adding st st' laws h s =
    let old = find env.self voter st.voters in
    let v = voter_of env voter st in
    with_ok (votes_delta env v.votes votes is_adding) (λ m q. ground arith)
      λ delta a.
        with_ok (allocate env v.votes delta voter v.producers st.producers v.unclaimed_rewards)
          (λ m q. ground arith)
          λ done b.
            with_ok (env.sdk.add v.votes delta) (λ m q. ground arith)
              λ sum c.
                let row : Voter = record v {
                  votes = sum;
                  producers = done.voted;
                  unclaimed_rewards = done.allocated;
                  update_at = env.block_time;
                } in
                let summed = laws.add_lem v.votes delta in
                let sum_amount : sum.amount ≡ v.votes.amount +ℤ delta.amount = ground arith in
                let same =
                  names-allocate env v.votes delta voter v.producers st.producers
                    v.unclaimed_rewards done b in
                set_voter-step env voter row done.producers st st'
                  (λ k.
                    moved_by (votes_of env.self k st.producers) (votes_of env.self k done.producers)
                      (weight k (names v.producers) v.votes.amount) (counted k env.self voter row)
                      (weight k (names v.producers) delta.amount)
                      (votes_of-allocate env v.votes delta voter k v.producers st.producers
                        v.unclaimed_rewards done laws b)
                      (rw same (
                        rw sum_amount
                          (weight-add k (names v.producers) v.votes.amount delta.amount))))
                  (rw same (voter_of-IsOrdered env voter st s.ordered)) (ground arith) s

-- Removed, kept and added producers together move the votes from the old map to the new one.
revoted :
    (p a b c removed removed' kept added old row nought : ℤ)
    → a ≡ p +ℤ removed'
    → removed' +ℤ removed ≡ pos 0
    → b ≡ a +ℤ nought
    → nought ≡ pos 0
    → c ≡ b +ℤ added
    → kept +ℤ removed ≡ old
    → row ≡ added +ℤ kept
    → c +ℤ old ≡ p +ℤ row
revoted p a b c removed removed' kept added old row nought e1 e2 e3 e4 e5 e6 e7 = grind int_laws

pub voteproducer-IsTallied :
    (env : Env) (voter : Name) (producers : List Name) (st st' : State)
    → IsSdk env.sdk
    → voteproducer env voter producers st ≡ ok st'
    → IsTallied env.self st
    → IsTallied env.self st'
unfolding voteproducer
voteproducer-IsTallied env voter producers st st' laws h s =
    let v = voter_of env voter st in
    let changes = compare_votes v.producers producers in
    let minus = env.sdk.neg v.votes in
    with_ok (allocate env v.votes minus voter changes.removed st.producers v.unclaimed_rewards)
      (λ m q. ground arith)
      λ a ea.
        with_ok (allocate env v.votes vote_asset_0 voter changes.kept a.producers a.allocated)
          (λ m q. ground arith)
          λ b eb.
            with_ok (allocate env vote_asset_0 v.votes voter changes.added b.producers b.allocated)
              (λ m q. ground arith)
              λ c ec.
                let row : Voter = record v {
                  producers = emplace_all c.voted b.voted;
                  unclaimed_rewards = c.allocated;
                  update_at = env.block_time;
                } in
                let ascending : Ascending producers =
                  is_sorted-Ascending producers (ground arith) in
                let woven = compare_votes-Weave v.producers producers in
                let now : names row.producers ≡ producers =
                  names-emplace_all woven ascending c.voted b.voted
                    (names-allocate env vote_asset_0 v.votes voter changes.added b.producers
                      b.allocated c ec)
                    (names-allocate env v.votes vote_asset_0 voter changes.kept a.producers
                      a.allocated b eb) in
                let x = v.votes.amount in
                let minus_amount : minus.amount ≡ pos 0 -ℤ x =
                  ap (λ (z : Asset). z.amount) (laws.neg_lem v.votes) in
                set_voter-step env voter row c.producers st st'
                  (λ k.
                    revoted (votes_of env.self k st.producers) (votes_of env.self k a.producers)
                      (votes_of env.self k b.producers) (votes_of env.self k c.producers)
                      (weight k (names changes.removed) x)
                      (weight k (names changes.removed) minus.amount)
                      (weight k (names changes.kept) x) (weight k (names changes.added) x)
                      (weight k (names v.producers) x) (counted k env.self voter row)
                      (weight k (names changes.kept) (pos 0))
                      (votes_of-allocate env v.votes minus voter k changes.removed st.producers
                        v.unclaimed_rewards a laws ea)
                      (rw minus_amount (weight-negated k (names changes.removed) x))
                      (votes_of-allocate env v.votes vote_asset_0 voter k changes.kept a.producers
                        a.allocated b laws eb)
                      (weight-zero k (names changes.kept))
                      (votes_of-allocate env vote_asset_0 v.votes voter k changes.added b.producers
                        b.allocated c laws ec)
                      (weight-compare_votes k v.producers producers x)
                      (rw now (weight-Weave k x woven)))
                  (rw now ascending) (ground arith) s

unmoved : (w z : ℤ) → z ≡ pos 0 → w ≡ w +ℤ z
unmoved w z e = grind int_laws

pub pay_rewards-IsTallied :
    (env : Env) (voter : Name) (st st' : State)
    → IsSdk env.sdk
    → pay_rewards env voter st ≡ ok st'
    → IsTallied env.self st
    → IsTallied env.self st'
unfolding pay_rewards
pay_rewards-IsTallied env voter st st' laws h s =
    with_some (find env.self voter st.voters) (λ q. ground arith)
      λ v f.
        with_ok
          (allocate env v.votes vote_asset_0 voter v.producers st.producers v.unclaimed_rewards)
          (λ m q. ground arith)
          λ done b.
            with_ok (env.sdk.add v.claimed_rewards done.allocated) (λ m q. ground arith)
              λ claimed c.
                let row : Voter = record v {
                  producers = done.voted;
                  unclaimed_rewards = asset (pos 0) done.allocated.symbol;
                  claimed_rewards = claimed;
                  update_at = env.block_time;
                } in
                let voters = modify env.self voter voter row st.voters in
                let same =
                  names-allocate env v.votes vote_asset_0 voter v.producers st.producers
                    v.unclaimed_rewards done b in
                let tables : (st'.producers ≡ done.producers) × (st'.voters ≡ voters) =
                  (ground arith, ground arith) in
                ballot_step env voter row done.producers voters st st'
                  (λ k. rw f (
                    moved_by (votes_of env.self k st.producers) (votes_of env.self k done.producers)
                      (weight k (names v.producers) v.votes.amount) (counted k env.self voter row)
                      (weight k (names v.producers) (pos 0))
                      (votes_of-allocate env v.votes vote_asset_0 voter k v.producers st.producers
                        v.unclaimed_rewards done laws b)
                      (rw same (
                        unmoved (weight k (names v.producers) v.votes.amount)
                          (weight k (names v.producers) (pos 0))
                          (weight-zero k (names v.producers))))))
                  (rw same (Rows-find IsOrdered env.self voter v st.voters s.ordered f)) (rw f refl)
                  tables.0 tables.1 s

-- A row that keeps its votes leaves the tally.
same_votes-IsTallied :
    (self : Name) (st st' : State)
    → ((k : Name) → votes_of self k st'.producers ≡ votes_of self k st.producers)
    → st'.voters ≡ st.voters
    → IsTallied self st
    → IsTallied self st'
same_votes-IsTallied self st st' e w s = record {
  tally = λ k. rw w (e k ∙ s.tally k);
  ordered = rw w s.ordered;
}

kept_votes :
    (env : Env) (n k : Name) (row : Producer) (rows rows' : Table Producer)
    → row.votes ≡ (row_or (find env.self n rows) (new_producer env n)).votes
    → find env.self k rows'
      ≡ (if env.self == env.self && k == n then some row else find env.self k rows)
    → votes_of env.self k rows' ≡ votes_of env.self k rows
kept_votes env n k row rows rows' v found = elim (Bool-cases (k == n)) [
  | inl same ↦
      let here : n ≡ k = ground arith in
      let row_found : find env.self k rows' ≡ some row = ground arith in
      rw row_found (ap (λ (a : Asset). a.amount) v ∙ old_votes env n k rows here)
  | inr other ↦
      let kept : find env.self k rows' ≡ find env.self k rows = ground arith in rw kept refl
]

pub regproducer-IsTallied :
    (env : Env) (producer : Name) (st st' : State)
    → regproducer env producer st ≡ ok st'
    → IsTallied env.self st
    → IsTallied env.self st'
unfolding regproducer
regproducer-IsTallied env producer st st' h s =
    let old = find env.self producer st.producers in
    let row : Producer = record (row_or old (new_producer env producer)) {
      is_registered = true;
      update_at = env.block_time;
    } in
    with_ok (set_row_paid old env.self producer producer row st.producers) (λ m q. ground arith)
      λ rows e.
        let table : st'.producers ≡ rows = ground arith in
        same_votes-IsTallied env.self st st'
          (λ k. rw table (
            kept_votes env producer k row st.producers rows refl
              (find-set_row_paid env.self producer producer env.self k row st.producers rows e)))
          (ground arith) s

pub add_rewards-IsTallied :
    (env : Env) (from : Name) (q : Asset) (st st' : State)
    → add_rewards env from q st ≡ ok st'
    → IsTallied env.self st
    → IsTallied env.self st'
unfolding add_rewards
add_rewards-IsTallied env from q st st' h s =
    with_ok (env.sdk.add st.total_rewards q) (λ m r. ground arith)
      λ sum a.
        with_some (find env.self from st.producers) (λ r. ground arith)
          λ p f.
            with_ok (env.sdk.add p.total_rewards q) (λ m r. ground arith)
              λ received b.
                with_ok (env.sdk.add p.allocating_rewards q) (λ m r. ground arith)
                  λ allocating c.
                    with_ok (calc_rewards_per_vote p.rewards_per_vote q p.votes)
                      (λ m r. ground arith)
                      λ raised d.
                        let row : Producer = record p {
                          total_rewards = received;
                          allocating_rewards = allocating;
                          rewards_per_vote = raised;
                          update_at = env.block_time;
                        } in
                        let rows = modify_same env.self from row st.producers in
                        let table : st'.producers ≡ rows = ground arith in
                        same_votes-IsTallied env.self st st'
                          (λ k. rw table (
                            kept_votes env from k row st.producers rows (rw f refl)
                              (find-modify_same env.self from env.self k row p st.producers f)))
                          (ground arith) s
