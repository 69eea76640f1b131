-- ===== src/Reward/Runs.antt =====
-- The invariant of the rewards under each action of amax.reward, and over any run.
use amax_contracts.Common.{
  ◌≡◌, refl, sym, ◌∙◌, Bool, true, false, ◌&&◌, ◌==◌, not, List, [], ◌∷◌, arith, ok, with_ok,
  with_some, Bool-cases, inl, inr,
}
use amax_contracts.Common.Int.{ℤ, pos, ◌+ℤ◌, ◌≤ℤ◌, leb_ℤ, int_laws}
use amax_contracts.Chain.{Name, Symbol, Asset, asset, IsSdk, symbol_eq}
use amax_contracts.Chain.Names
use amax_contracts.Chain.Table.{
  find, modify, modify_same, total, Rows-find, modify_same-Rows, total-modify_same,
}
use amax_contracts.Reward.{
  vote_asset_0, Producer, Voter, State, Env, new_producer, new_voter, calc_rewards_per_vote,
  set_row_paid, row_or, allocate,
}
use amax_contracts.Reward.Merge.{compare_votes, emplace_all}
use amax_contracts.Reward.Operations.{
  regproducer, votes_delta, change_vote, voteproducer, pay_rewards, claimrewards, claimfor,
  add_rewards, ontransfer, Action, registers, adds, subtracts, votes_for, claims, claims_for,
  receives, apply,
}
use amax_contracts.Reward.Rows.{set_row_paid-Rows, total-set_row_paid}
use amax_contracts.Reward.Allotments.{
  IsFair, given_by, received_by, Shares-trans, row_or-IsFair, allocate-Shares, cancelled,
}
use amax_contracts.Reward.Solvency.{IsSolvent, voter_or-IsOwed, voter_step, vote_step, zero_plus}

-- A run of `allocate` for a voter's row.
change_vote-IsSolvent :
    (env : Env) (voter : Name) (votes : Asset) (is_adding : Bool) (st st' : State)
    → IsSdk env.sdk
    → change_vote env voter votes is_adding st ≡ ok st'
    → IsSolvent st
    → IsSolvent st'
unfolding change_vote
change_vote-IsSolvent env voter votes is_adding st st' laws h s =
    let old = find env.self voter st.voters in
    let v = row_or old (new_voter env voter) in
    with_ok (votes_delta env v.votes votes is_adding) (λ m q. ground arith)
      λ delta a.
        with_ok (allocate env v.votes delta voter v.producers st.producers v.unclaimed_rewards)
          (λ m q. ground arith)
          λ done b.
            with_ok (env.sdk.add v.votes delta) (λ m q. ground arith)
              λ sum c.
                let row : Voter = record v {
                  votes = sum;
                  producers = done.voted;
                  unclaimed_rewards = done.allocated;
                  update_at = env.block_time;
                } in
                let shares =
                  allocate-Shares env v.votes delta voter v.producers st.producers
                    v.unclaimed_rewards done laws b in
                vote_step env voter row done.producers done.allocated st st' shares (ground arith)
                  refl refl (ground arith) s

voteproducer-IsSolvent :
    (env : Env) (voter : Name) (producers : List Name) (st st' : State)
    → IsSdk env.sdk
    → voteproducer env voter producers st ≡ ok st'
    → IsSolvent st
    → IsSolvent st'
unfolding voteproducer
voteproducer-IsSolvent env voter producers st st' laws h s =
    let old = find env.self voter st.voters in
    let v = row_or old (new_voter env voter) in
    let changes = compare_votes v.producers producers in
    let none = env.sdk.neg v.votes in
    with_ok (allocate env v.votes none voter changes.removed st.producers v.unclaimed_rewards)
      (λ m q. ground arith)
      λ a ea.
        with_ok (allocate env v.votes vote_asset_0 voter changes.kept a.producers a.allocated)
          (λ m q. ground arith)
          λ b eb.
            with_ok (allocate env vote_asset_0 v.votes voter changes.added b.producers b.allocated)
              (λ m q. ground arith)
              λ c ec.
                let row : Voter = record v {
                  producers = emplace_all c.voted b.voted;
                  unclaimed_rewards = c.allocated;
                  update_at = env.block_time;
                } in
                let first =
                  allocate-Shares env v.votes none voter changes.removed st.producers
                    v.unclaimed_rewards a laws ea in
                let second =
                  allocate-Shares env v.votes vote_asset_0 voter changes.kept a.producers
                    a.allocated b laws eb in
                let third =
                  allocate-Shares env vote_asset_0 v.votes voter changes.added b.producers
                    b.allocated c laws ec in
                let two =
                  Shares-trans st.producers v.unclaimed_rewards a.producers a.allocated b.producers
                    b.allocated first second in
                let three =
                  Shares-trans st.producers v.unclaimed_rewards b.producers b.allocated c.producers
                    c.allocated two third in
                vote_step env voter row c.producers c.allocated st st' three (ground arith) refl
                  refl (voter_or-IsOwed env env.self voter st.voters s.owed).2 s

pay_rewards-IsSolvent :
    (env : Env) (voter : Name) (st st' : State)
    → IsSdk env.sdk
    → pay_rewards env voter st ≡ ok st'
    → IsSolvent st
    → IsSolvent st'
unfolding pay_rewards
pay_rewards-IsSolvent env voter st st' laws h s =
    with_some (find env.self voter st.voters) (λ q. ground arith)
      λ v f.
        with_ok
          (allocate env v.votes vote_asset_0 voter v.producers st.producers v.unclaimed_rewards)
          (λ m q. ground arith)
          λ done b.
            with_ok (env.sdk.add v.claimed_rewards done.allocated) (λ m q. ground arith)
              λ claimed c.
                let summed = laws.add_lem v.claimed_rewards done.allocated in
                let row : Voter = record v {
                  producers = done.voted;
                  unclaimed_rewards = asset (pos 0) done.allocated.symbol;
                  claimed_rewards = claimed;
                  update_at = env.block_time;
                } in
                let shares =
                  allocate-Shares env v.votes vote_asset_0 voter v.producers st.producers
                    v.unclaimed_rewards done laws b in
                let voters = modify env.self voter voter row st.voters in
                let final : st' ≡ record st {
                  producers = done.producers;
                  voters = voters;
                  sent = record { to = voter; quantity = done.allocated } ∷ st.sent;
                } =
                  ground arith in
                voter_step env voter row done.producers voters done.allocated done.allocated.amount
                  st st' (rw f shares) (rw f refl) (zero_plus done.allocated.amount)
                  (rw f (ground arith)) (omega arith) (ground arith) (ground arith) (rw final refl)
                  (rw final refl) (rw final refl) (rw final refl) s

regproducer-IsSolvent :
    (env : Env) (producer : Name) (st st' : State)
    → regproducer env producer st ≡ ok st'
    → IsSolvent st
    → IsSolvent st'
unfolding regproducer
regproducer-IsSolvent env producer st st' h s =
    let old = find env.self producer st.producers in
    let p = row_or old (new_producer env producer) in
    let row : Producer = record p { is_registered = true; update_at = env.block_time } in
    with_ok (set_row_paid old env.self producer producer row st.producers) (λ m q. ground arith)
      λ rows e.
        let final : st' ≡ record st { producers = rows } = ground arith in
        let fair = row_or-IsFair env env.self producer st.producers s.fair in
        let received =
          cancelled (total received_by st.producers) (total received_by rows) p.total_rewards.amount
            p.total_rewards.amount
            (total-set_row_paid received_by env.self producer producer row
              (new_producer env producer) st.producers rows refl e)
            refl in
        let given =
          cancelled (total given_by st.producers) (total given_by rows) p.allocated_rewards.amount
            p.allocated_rewards.amount
            (total-set_row_paid given_by env.self producer producer row (new_producer env producer)
              st.producers rows refl e)
            refl in
        rw final (record {
          received = s.received ∙ sym received;
          given = given ∙ s.given;
          claimed = s.claimed;
          fair =
              set_row_paid-Rows IsFair env.self producer producer row st.producers rows s.fair
                (record {
                  shared = fair.shared;
                  allocating_nonneg = fair.allocating_nonneg;
                  allocated_nonneg = fair.allocated_nonneg;
                  votes_nonneg = fair.votes_nonneg;
                })
                e;
          owed = s.owed;
        })

more_received : (t t' g r r' q : ℤ) → t' +ℤ r ≡ t +ℤ r' → r' ≡ r +ℤ q → g ≡ t → g +ℤ q ≡ t'
more_received t t' g r r' q a b c = grind int_laws

more_to_share : (r a g q : ℤ) → r ≡ a +ℤ g → r +ℤ q ≡ (a +ℤ q) +ℤ g
more_to_share r a g q e = grind int_laws

calc_rewards_per_vote-nonneg :
    (old : ℤ) (rewards votes : Asset) (raised : ℤ)
    → calc_rewards_per_vote old rewards votes ≡ ok raised
    → pos 0 ≤ℤ rewards.amount
unfolding calc_rewards_per_vote
calc_rewards_per_vote-nonneg old rewards votes raised h =
    elim (Bool-cases (leb_ℤ (pos 0) rewards.amount && leb_ℤ (pos 0) votes.amount)) [
      | inl e ↦ ground arith
      | inr e ↦ absurd (ground arith)
    ]

add_rewards-IsSolvent :
    (env : Env) (from : Name) (q : Asset) (st st' : State)
    → IsSdk env.sdk
    → add_rewards env from q st ≡ ok st'
    → IsSolvent st
    → IsSolvent st'
unfolding add_rewards
add_rewards-IsSolvent env from q st st' laws h s =
    with_ok (env.sdk.add st.total_rewards q) (λ m r. ground arith)
      λ sum a.
        with_some (find env.self from st.producers) (λ r. ground arith)
          λ p f.
            with_ok (env.sdk.add p.total_rewards q) (λ m r. ground arith)
              λ received b.
                with_ok (env.sdk.add p.allocating_rewards q) (λ m r. ground arith)
                  λ allocating c.
                    with_ok (calc_rewards_per_vote p.rewards_per_vote q p.votes)
                      (λ m r. ground arith)
                      λ raised d.
                        let positive =
                          calc_rewards_per_vote-nonneg p.rewards_per_vote q p.votes raised d in
                        let row : Producer = record p {
                          total_rewards = received;
                          allocating_rewards = allocating;
                          rewards_per_vote = raised;
                          update_at = env.block_time;
                        } in
                        let rows = modify_same env.self from row st.producers in
                        let final : st' ≡ record st { total_rewards = sum; producers = rows } =
                          ground arith in
                        let summed = laws.add_lem st.total_rewards q in
                        let summed_p = laws.add_lem p.total_rewards q in
                        let summed_a = laws.add_lem p.allocating_rewards q in
                        let sum_amount : sum.amount ≡ st.total_rewards.amount +ℤ q.amount =
                          ground arith in
                        let received_amount : received.amount ≡ p.total_rewards.amount +ℤ q.amount =
                          ground arith in
                        let allocating_amount : allocating.amount
                            ≡ p.allocating_rewards.amount +ℤ q.amount =
                          ground arith in
                        let fair = Rows-find IsFair env.self from p st.producers s.fair f in
                        rw final (record {
                          received = rw sum_amount (
                              more_received (total received_by st.producers)
                                (total received_by rows) st.total_rewards.amount
                                p.total_rewards.amount received.amount q.amount
                                (total-modify_same received_by env.self from row p st.producers f)
                                received_amount s.received);
                          given =
                              cancelled (total given_by st.producers) (total given_by rows)
                                p.allocated_rewards.amount p.allocated_rewards.amount
                                (total-modify_same given_by env.self from row p st.producers f) refl
                              ∙ s.given;
                          claimed = s.claimed;
                          fair =
                              modify_same-Rows IsFair env.self from row st.producers s.fair
                                (record {
                                  shared = rw received_amount (
                                      rw allocating_amount (
                                        more_to_share p.total_rewards.amount
                                          p.allocating_rewards.amount p.allocated_rewards.amount
                                          q.amount fair.shared));
                                  allocating_nonneg =
                                      rw allocating_amount
                                        (omega (int_laws, fair.allocating_nonneg, positive));
                                  allocated_nonneg = fair.allocated_nonneg;
                                  votes_nonneg = fair.votes_nonneg;
                                });
                          owed = s.owed;
                        })

ontransfer-IsSolvent :
    (env : Env) (from to : Name) (q : Asset) (st st' : State)
    → IsSdk env.sdk
    → ontransfer env from to q st ≡ ok st'
    → IsSolvent st
    → IsSolvent st'
unfolding ontransfer
ontransfer-IsSolvent env from to q st st' laws h s =
    elim (Bool-cases (
      env.first_receiver == Names.amax_token
      && symbol_eq q.symbol env.core_symbol
      && not (from == env.self)
      && to == env.self)) [
        | inl e ↦ add_rewards-IsSolvent env from q st st' laws (ground arith) s
        | inr e ↦ let same : st' ≡ st = ground arith in rw same s
      ]

apply-IsSolvent :
    (env : Env) (a : Action) (st st' : State)
    → IsSdk env.sdk
    → apply env a st ≡ ok st'
    → IsSolvent st
    → IsSolvent st'
unfolding apply claimrewards claimfor
apply-IsSolvent env (registers producer) st st' laws h s =
    regproducer-IsSolvent env producer st st' h s
apply-IsSolvent env (adds voter votes) st st' laws h s =
    change_vote-IsSolvent env voter votes true st st' laws h s
apply-IsSolvent env (subtracts voter votes) st st' laws h s =
    change_vote-IsSolvent env voter votes false st st' laws h s
apply-IsSolvent env (votes_for voter producers) st st' laws h s =
    voteproducer-IsSolvent env voter producers st st' laws h s
apply-IsSolvent env (claims voter) st st' laws h s =
    pay_rewards-IsSolvent env voter st st' laws (ground arith) s
apply-IsSolvent env (claims_for submitter voter) st st' laws h s =
    pay_rewards-IsSolvent env voter st st' laws (ground arith) s
apply-IsSolvent env (receives from to q) st st' laws h s =
    ontransfer-IsSolvent env from to q st st' laws h s

-- The state that the contract starts from, for the core symbol of its chain.
abbrev pub deployed : Symbol → State
deployed core = record {
  total_rewards = asset (pos 0) core;
  producers = [];
  voters = [];
  sent = [];
}

-- A state that the contract of an account comes to, through actions that went through.
pub data Reach (self : Name) : State → Type 0 where
  start : (core : Symbol) → Reach self (deployed core)
  next :
      (env : Env) (a : Action) {st st' : State}
      → Reach self st
      → env.self ≡ self
      → IsSdk env.sdk
      → apply env a st ≡ ok st'
      → Reach self st'

-- Over any run, what the contract received is what its producers received, and a producer's part is
-- what it still has to share out and what it has given; what the producers gave is what was paid
-- and what the voters have not claimed; what the voters have claimed is what was paid. No amount
-- of a producer's row is negative, of rewards or of votes, and neither are the unclaimed rewards, the
-- claimed rewards and the votes of a voter's row.
pub Reach-IsSolvent : (self : Name) {st : State} → Reach self st → IsSolvent st
Reach-IsSolvent self (start core) = record {
  received = refl;
  given = omega int_laws;
  claimed = refl;
  fair = tt;
  owed = tt;
}
Reach-IsSolvent self (next env a {st} {st'} r here laws h) =
    apply-IsSolvent env a st st' laws h (Reach-IsSolvent self r)
