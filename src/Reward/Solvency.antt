-- ===== src/Reward/Solvency.antt =====
-- Where the rewards of amax.reward are, over any run.
use amax_contracts.Common.{
  ℕ, ◌≡◌, refl, sym, ◌∙◌, List, [], ◌∷◌, arith, ok, with_ok, Option-cases, inl, inr,
}
use amax_contracts.Common.Int.{ℤ, pos, ◌+ℤ◌, ◌≤ℤ◌, int_laws}
use amax_contracts.Chain.{Name, Asset}
use amax_contracts.Chain.Table.{Table, find, Rows, total, Rows-find}
use amax_contracts.Reward.{Producer, Voter, Payment, State, Env, new_voter, set_row_paid, row_or}
use amax_contracts.Reward.Operations.{set_voter}
use amax_contracts.Reward.Rows.{set_row_paid-Rows, total-set_row_paid}
use amax_contracts.Reward.Allotments.{IsFair, given_by, received_by, Shares}

abbrev pub unclaimed_by : ℕ → ℕ → Voter → ℤ
unclaimed_by s k v = v.unclaimed_rewards.amount

abbrev pub claimed_by : ℕ → ℕ → Voter → ℤ
claimed_by s k v = v.claimed_rewards.amount

abbrev pub paid_in : List Payment → ℤ
paid_in [] = pos 0
paid_in (p ∷ ps) = p.quantity.amount +ℤ paid_in ps

abbrev pub paid : State → ℤ
paid st = paid_in st.sent

-- No voter has less than nothing, of rewards or of votes.
abbrev pub IsOwed : ℕ → ℕ → Voter → Type 0
IsOwed s k v =
    (pos 0 ≤ℤ v.unclaimed_rewards.amount)
    × (pos 0 ≤ℤ v.claimed_rewards.amount)
    × (pos 0 ≤ℤ v.votes.amount)

-- What was received is with the producers; what they have given is with the voters, or was paid to
-- them, and each voter's row says how much that is.
pub record IsSolvent (st : State) : Type 0 where
  pub received : st.total_rewards.amount ≡ total received_by st.producers
  pub given : total given_by st.producers ≡ total unclaimed_by st.voters +ℤ paid st
  pub claimed : total claimed_by st.voters ≡ paid st
  pub fair : Rows IsFair st.producers
  pub owed : Rows IsOwed st.voters

new_voter-IsOwed : (env : Env) (s k n : ℕ) → IsOwed s k (new_voter env n)
new_voter-IsOwed env s k n = (omega arith, omega arith, omega arith)

pub voter_or-IsOwed :
    (env : Env) (s n : ℕ) (rows : Table Voter)
    → Rows IsOwed rows
    → IsOwed s n (row_or (find s n rows) (new_voter env n))
voter_or-IsOwed env s n rows v = elim (Option-cases (find s n rows)) [
  | inl e ↦ rw e (new_voter-IsOwed env s n n)
  | inr (p, e) ↦ rw e (Rows-find IsOwed s n p rows v e)
]

unclaimed_sum :
    (g g' u u' old out p row pay : ℤ)
    → g' +ℤ old ≡ g +ℤ out
    → u' +ℤ old ≡ u +ℤ row
    → row +ℤ pay ≡ out
    → g ≡ u +ℤ p
    → g' ≡ u' +ℤ (pay +ℤ p)
unclaimed_sum g g' u u' old out p row pay a b c d = grind int_laws

claimed_sum :
    (t t' old row pay p : ℤ) → t' +ℤ old ≡ t +ℤ row → row ≡ old +ℤ pay → t ≡ p → t' ≡ pay +ℤ p
claimed_sum t t' old row pay p a b c = grind int_laws

grown : (old row pay : ℤ) → row ≡ old +ℤ pay → pos 0 ≤ℤ pay → pos 0 ≤ℤ old → pos 0 ≤ℤ row
grown old row pay e h k = grind int_laws

pub plus_0 : (a : ℤ) → a +ℤ pos 0 ≡ a
plus_0 a = omega int_laws

pub zero_plus : (a : ℤ) → pos 0 +ℤ a ≡ a
zero_plus a = omega int_laws

-- A change of one voter's row after rewards were shared out to it, of which `pay` is paid.
pub voter_step :
    (env : Env) (voter : Name) (row : Voter) (rows : Table Producer) (voters : Table Voter)
    (out : Asset) (pay : ℤ) (st st' : State)
    → Shares st.producers
        (row_or (find env.self voter st.voters) (new_voter env voter)).unclaimed_rewards
        rows
        out
    → set_row_paid (find env.self voter st.voters) env.self voter voter row st.voters ≡ ok voters
    → row.unclaimed_rewards.amount +ℤ pay ≡ out.amount
    → row.claimed_rewards.amount
      ≡ (row_or (find env.self voter st.voters) (new_voter env voter)).claimed_rewards.amount +ℤ pay
    → pos 0 ≤ℤ row.unclaimed_rewards.amount
    → pos 0 ≤ℤ row.votes.amount
    → pos 0 ≤ℤ pay
    → st'.total_rewards ≡ st.total_rewards
    → st'.producers ≡ rows
    → st'.voters ≡ voters
    → paid st' ≡ pay +ℤ paid st
    → IsSolvent st
    → IsSolvent st'
voter_step env voter row rows voters out pay st st' sh e left claim low some_votes high t p w s v =
    let old = row_or (find env.self voter st.voters) (new_voter env voter) in
    let unclaimed =
      total-set_row_paid unclaimed_by env.self voter voter row (new_voter env voter) st.voters
        voters refl e in
    let claims =
      total-set_row_paid claimed_by env.self voter voter row (new_voter env voter) st.voters voters
        refl e in
    let before = voter_or-IsOwed env env.self voter st.voters v.owed in
    record {
      received = rw t (rw p (v.received ∙ sym sh.same_total));
      given = rw p (
          rw w (
            rw s (
              unclaimed_sum (total given_by st.producers) (total given_by rows)
                (total unclaimed_by st.voters) (total unclaimed_by voters)
                old.unclaimed_rewards.amount out.amount (paid st) row.unclaimed_rewards.amount pay
                sh.given unclaimed left v.given)));
      claimed = rw w (
          rw s (
            claimed_sum (total claimed_by st.voters) (total claimed_by voters)
              old.claimed_rewards.amount row.claimed_rewards.amount pay (paid st) claims claim
              v.claimed));
      fair = rw p (sh.fair v.fair);
      owed = rw w (
          set_row_paid-Rows IsOwed env.self voter voter row st.voters voters v.owed
            (
              low,
              grown old.claimed_rewards.amount row.claimed_rewards.amount pay claim high before.1,
              some_votes,
            )
            e);
    }

-- Where nothing is paid.
pub vote_step :
    (env : Env) (voter : Name) (row : Voter) (rows : Table Producer) (out : Asset) (st st' : State)
    → Shares st.producers
        (row_or (find env.self voter st.voters) (new_voter env voter)).unclaimed_rewards
        rows
        out
    → set_voter env (find env.self voter st.voters) voter row rows st ≡ ok st'
    → row.unclaimed_rewards ≡ out
    → row.claimed_rewards
      ≡ (row_or (find env.self voter st.voters) (new_voter env voter)).claimed_rewards
    → pos 0 ≤ℤ row.votes.amount
    → IsSolvent st
    → IsSolvent st'
vote_step env voter row rows out st st' sh h unclaimed claimed some_votes v =
    let old = row_or (find env.self voter st.voters) (new_voter env voter) in
    let before = voter_or-IsOwed env env.self voter st.voters v.owed in
    with_ok (set_row_paid (find env.self voter st.voters) env.self voter voter row st.voters)
      (λ m q. ground arith)
      λ voters e.
        let final : st' ≡ record st { producers = rows; voters = voters } = ground arith in
        voter_step env voter row rows voters out (pos 0) st st' sh e
          (rw unclaimed (plus_0 out.amount)) (rw claimed (sym (plus_0 old.claimed_rewards.amount)))
          (rw unclaimed (omega (arith, sh.rises, before.0))) some_votes (omega arith)
          (rw final refl) (rw final refl) (rw final refl) (rw final (sym (zero_plus (paid st)))) v
