-- ===== src/Reward/Allotments.antt =====
-- What sharing a producer's rewards out moves, in one round and over the loop.
use amax_contracts.Common.{
  ℕ, ◌≡◌, refl, sym, ap, ◌∙◌, Bool, false, ◌&&◌, List, [], ◌∷◌, arith, ok, with_ok, Option-cases,
  Bool-cases, inl, inr,
}
use amax_contracts.Common.Int.{ℤ, pos, ◌+ℤ◌, ◌-ℤ◌, ◌*ℤ◌, ◌/ℤ◌, ◌≤ℤ◌, ltb_ℤ, int_laws}
use amax_contracts.Chain.{Name, Asset, IsSdk}
use amax_contracts.Chain.Table.{Table, find, Rows, total, Rows-find}
use amax_contracts.Reward.{
  Producer, VotedProducer, Env, new_producer, to_int128, high_precision, calc_voter_rewards,
  set_row, row_or, Share, move_rewards, share_rewards, allot, Allotted, allocate,
}
use amax_contracts.Reward.Rows.{set_row-Rows, total-set_row}

pub chained : (a b c x y z : ℤ) → b +ℤ x ≡ a +ℤ y → c +ℤ y ≡ b +ℤ z → c +ℤ x ≡ a +ℤ z
chained a b c x y z e f = grind int_laws

pub passed : (t t' old row x y : ℤ) → t' +ℤ old ≡ t +ℤ row → row +ℤ x ≡ old +ℤ y → t' +ℤ x ≡ t +ℤ y
passed t t' old row x y e f = grind int_laws

pub cancelled : (t t' old row : ℤ) → t' +ℤ old ≡ t +ℤ row → row ≡ old → t' ≡ t
cancelled t t' old row e f = grind int_laws

risen : (a b x y : ℤ) → b +ℤ x ≡ a +ℤ y → x ≤ℤ y → pos 0 ≤ℤ a → pos 0 ≤ℤ b
risen a b x y e h k = grind int_laws

-- A producer's rewards are those still to be shared out and those that were, and none is negative.
pub record IsFair (scope key : ℕ) (p : Producer) : Type 0 where
  pub shared : p.total_rewards.amount ≡ p.allocating_rewards.amount +ℤ p.allocated_rewards.amount
  pub allocating_nonneg : pos 0 ≤ℤ p.allocating_rewards.amount
  pub allocated_nonneg : pos 0 ≤ℤ p.allocated_rewards.amount
  pub votes_nonneg : pos 0 ≤ℤ p.votes.amount

-- From a row and an amount to what a round leaves: the amount grows by what the row gives.
pub record Gives (p : Producer) (allocated : Asset) (s : Share) : Type 0 where
  pub given :
      s.row.allocated_rewards.amount +ℤ allocated.amount
      ≡ p.allocated_rewards.amount +ℤ s.allocated.amount
  pub taken :
      s.row.allocating_rewards.amount +ℤ s.row.allocated_rewards.amount
      ≡ p.allocating_rewards.amount +ℤ p.allocated_rewards.amount
  pub rises : allocated.amount ≤ℤ s.allocated.amount
  pub enough : pos 0 ≤ℤ p.allocating_rewards.amount → pos 0 ≤ℤ s.row.allocating_rewards.amount
  pub same_total : s.row.total_rewards ≡ p.total_rewards
  pub same_rate : s.row.rewards_per_vote ≡ p.rewards_per_vote

nothing-Gives :
    (p : Producer) (allocated : Asset)
    → Gives p allocated (record { row = p; allocated = allocated })
nothing-Gives p allocated = record {
  given = refl;
  taken = refl;
  rises = omega arith;
  enough = λ h. h;
  same_total = refl;
  same_rate = refl;
}

pub calc_voter_rewards-nonneg :
    (env : Env) (votes : Asset) (rate : ℤ) (r : Asset)
    → IsSdk env.sdk
    → calc_voter_rewards env votes rate ≡ ok r
    → pos 0 ≤ℤ r.amount
unfolding calc_voter_rewards
calc_voter_rewards-nonneg env votes rate r laws h =
    let product = to_int128 (votes.amount *ℤ rate) in
    let made = laws.make_lem (product /ℤ high_precision) env.core_symbol in ground arith

moved :
    (env : Env) (p : Producer) (left more new out allocated : Asset)
    → IsSdk env.sdk
    → pos 0 ≤ℤ new.amount
    → (short : Bool) → short ≡ false
    → env.sdk.lt p.allocating_rewards new ≡ ok short
    → env.sdk.sub p.allocating_rewards new ≡ ok left
    → env.sdk.add p.allocated_rewards new ≡ ok more
    → env.sdk.add allocated new ≡ ok out
    → Gives p allocated (record {
      row = record p { allocating_rewards = left; allocated_rewards = more };
      allocated = out;
    })
moved env p left more new out allocated laws nonneg short covered c d f j =
    let compared = laws.lt_lem p.allocating_rewards new in
    let lowered = laws.sub_lem p.allocating_rewards new in
    let raised = laws.add_lem p.allocated_rewards new in
    let summed = laws.add_lem allocated new in
    let less : left.amount ≡ p.allocating_rewards.amount -ℤ new.amount = ground arith in
    let grown : more.amount ≡ p.allocated_rewards.amount +ℤ new.amount = ground arith in
    let total : out.amount ≡ allocated.amount +ℤ new.amount = ground arith in
    let fits : new.amount ≤ℤ p.allocating_rewards.amount = ground arith in
    record {
      given = rw grown (rw total (omega int_laws));
      taken = rw less (rw grown (omega int_laws));
      rises = rw total (omega int_laws);
      enough = λ h. rw less (omega int_laws);
      same_total = refl;
      same_rate = refl;
    }

move_rewards-Gives :
    (env : Env) (new : Asset) (p : Producer) (allocated : Asset) (s : Share)
    → IsSdk env.sdk
    → pos 0 ≤ℤ new.amount
    → move_rewards env new p allocated ≡ ok s
    → Gives p allocated s × (s.row.votes ≡ p.votes)
unfolding move_rewards
move_rewards-Gives env new p allocated s laws nonneg h =
    with_ok (env.sdk.lt p.allocating_rewards new) (λ e q. ground arith)
      λ short c.
        with_ok (env.sdk.sub p.allocating_rewards new) (λ e q. ground arith)
          λ left d.
            with_ok (env.sdk.add p.allocated_rewards new) (λ e q. ground arith)
              λ more f.
                with_ok (env.sdk.add left more) (λ e q. ground arith)
                  λ sum g.
                    with_ok (env.sdk.eq p.total_rewards sum) (λ e q. ground arith)
                      λ same i.
                        with_ok (env.sdk.add allocated new) (λ e q. ground arith)
                          λ out j.
                            let covered : short ≡ false = ground arith in
                            let final : s ≡ record {
                              row = record p {
                                allocating_rewards = left;
                                allocated_rewards = more;
                              };
                              allocated = out;
                            } =
                              ground arith in
                            rw final (
                              moved env p left more new out allocated laws nonneg short covered c d
                                  f j,
                              refl,
                            )

share_rewards-Gives :
    (env : Env) (votes_old : Asset) (last : ℤ) (p : Producer) (allocated : Asset) (s : Share)
    → IsSdk env.sdk
    → share_rewards env votes_old last p allocated ≡ ok s
    → Gives p allocated s × (s.row.votes ≡ p.votes)
unfolding share_rewards
share_rewards-Gives env votes_old last p allocated s laws h =
    let rate = p.rewards_per_vote -ℤ last in
    with_ok (env.sdk.lt p.votes votes_old) (λ e q. ground arith)
      λ many a.
        with_ok (calc_voter_rewards env votes_old rate) (λ e q. ground arith)
          λ new b.
            let nonneg = calc_voter_rewards-nonneg env votes_old rate new laws b in
            move_rewards-Gives env new p allocated s laws nonneg (ground arith)

-- Setting the votes and the time of a row leaves its rewards.
voted :
    (p : Producer) (allocated : Asset) (shared s : Share) (votes votes_delta : Asset)
    → Gives p allocated shared
    → votes.amount ≡ p.votes.amount +ℤ votes_delta.amount
    → pos 0 ≤ℤ votes.amount
    → (s.allocated ≡ shared.allocated)
      × (s.row.votes ≡ votes)
      × (s.row.total_rewards ≡ shared.row.total_rewards)
      × (s.row.allocating_rewards ≡ shared.row.allocating_rewards)
      × (s.row.allocated_rewards ≡ shared.row.allocated_rewards)
      × (s.row.rewards_per_vote ≡ shared.row.rewards_per_vote)
    → Gives p allocated s
      × (s.row.votes.amount ≡ p.votes.amount +ℤ votes_delta.amount)
      × (pos 0 ≤ℤ s.row.votes.amount)
voted p allocated shared s votes votes_delta g sum nonneg (a, v, t, l, d, r) = (
  record {
    given = rw a (rw d g.given);
    taken = rw l (rw d g.taken);
    rises = rw a g.rises;
    enough = rw l g.enough;
    same_total = t ∙ g.same_total;
    same_rate = r ∙ g.same_rate;
  },
  rw v sum,
  rw v nonneg,
)

-- A round gives rewards, and changes the votes by what it is told.
pub allot-Gives :
    (env : Env) (votes_old votes_delta : Asset) (last : ℤ) (p : Producer) (allocated : Asset)
    (s : Share)
    → IsSdk env.sdk
    → allot env votes_old votes_delta last p allocated ≡ ok s
    → Gives p allocated s
      × (s.row.votes.amount ≡ p.votes.amount +ℤ votes_delta.amount)
      × (pos 0 ≤ℤ s.row.votes.amount)
unfolding allot
allot-Gives env votes_old votes_delta last p allocated s laws h =
    elim (Bool-cases
      (ltb_ℤ (pos 0) (p.rewards_per_vote -ℤ last) && ltb_ℤ (pos 0) votes_old.amount)) [
        | inl yes_ ↦
            with_ok (share_rewards env votes_old last p allocated) (λ e q. ground arith)
              λ shared a.
                with_ok (env.sdk.add shared.row.votes votes_delta) (λ e q. ground arith)
                  λ votes b.
                    let (gives, same) =
                      share_rewards-Gives env votes_old last p allocated shared laws a in
                    let summed = laws.add_lem shared.row.votes votes_delta in
                    voted p allocated shared s votes votes_delta gives (ground arith) (ground arith)
                      (ground arith)
        | inr no_ ↦
            with_ok (env.sdk.add p.votes votes_delta) (λ e q. ground arith)
              λ votes b.
                let summed = laws.add_lem p.votes votes_delta in
                voted p allocated (record { row = p; allocated = allocated }) s votes votes_delta
                  (nothing-Gives p allocated) (ground arith) (ground arith) (ground arith)
      ]

abbrev pub given_by : ℕ → ℕ → Producer → ℤ
given_by s k p = p.allocated_rewards.amount

abbrev pub received_by : ℕ → ℕ → Producer → ℤ
received_by s k p = p.total_rewards.amount

-- What the loop does to the table and to the voter's rewards: the voter gets what the rows give.
pub record Shares (rows : Table Producer) (out : Asset) (rows' : Table Producer) (out' : Asset)
    : Type 0 where
  pub given : total given_by rows' +ℤ out.amount ≡ total given_by rows +ℤ out'.amount
  pub same_total : total received_by rows' ≡ total received_by rows
  pub rises : out.amount ≤ℤ out'.amount
  pub fair : Rows IsFair rows → Rows IsFair rows'

pub none-Shares : (rows : Table Producer) (out : Asset) → Shares rows out rows out
none-Shares rows out = record {
  given = refl;
  same_total = refl;
  rises = omega arith;
  fair = λ v. v;
}

pub Shares-trans :
    (r1 : Table Producer) (o1 : Asset) (r2 : Table Producer) (o2 : Asset) (r3 : Table Producer)
    (o3 : Asset)
    → Shares r1 o1 r2 o2
    → Shares r2 o2 r3 o3
    → Shares r1 o1 r3 o3
Shares-trans r1 o1 r2 o2 r3 o3 a b = record {
  given =
      chained (total given_by r1) (total given_by r2) (total given_by r3) o1.amount o2.amount
        o3.amount a.given b.given;
  same_total = b.same_total ∙ a.same_total;
  rises = omega (arith, a.rises, b.rises);
  fair = λ v. b.fair (a.fair v);
}

pub new_producer-IsFair : (env : Env) (s k n : ℕ) → IsFair s k (new_producer env n)
new_producer-IsFair env s k n = record {
  shared = omega int_laws;
  allocating_nonneg = omega arith;
  allocated_nonneg = omega arith;
  votes_nonneg = omega arith;
}

Gives-IsFair :
    (s k : ℕ) (p : Producer) (out : Asset) (sh : Share)
    → Gives p out sh
    → pos 0 ≤ℤ sh.row.votes.amount
    → IsFair s k p
    → IsFair s k sh.row
Gives-IsFair s k p out sh g votes v = record {
  shared = rw g.same_total (v.shared ∙ sym g.taken);
  allocating_nonneg = g.enough v.allocating_nonneg;
  allocated_nonneg =
      risen p.allocated_rewards.amount sh.row.allocated_rewards.amount out.amount
        sh.allocated.amount g.given g.rises v.allocated_nonneg;
  votes_nonneg = votes;
}

-- The row that a round works on is fair, be it there or new.
pub row_or-IsFair :
    (env : Env) (s n : ℕ) (rows : Table Producer)
    → Rows IsFair rows
    → IsFair s n (row_or (find s n rows) (new_producer env n))
row_or-IsFair env s n rows v = elim (Option-cases (find s n rows)) [
  | inl e ↦ rw e (new_producer-IsFair env s n n)
  | inr (p, e) ↦ rw e (Rows-find IsFair s n p rows v e)
]

round-Shares :
    (env : Env) (n payer : Name) (rows rows' : Table Producer) (out : Asset) (sh : Share)
    → Gives (row_or (find env.self n rows) (new_producer env n)) out sh
    → pos 0 ≤ℤ sh.row.votes.amount
    → set_row (find env.self n rows) env.self n payer sh.row rows ≡ ok rows'
    → Shares rows out rows' sh.allocated
round-Shares env n payer rows rows' out sh g votes e =
    let old = row_or (find env.self n rows) (new_producer env n) in
    let gave =
      total-set_row given_by env.self n payer sh.row (new_producer env n) rows rows' refl e in
    let received =
      total-set_row received_by env.self n payer sh.row (new_producer env n) rows rows' refl e in
    record {
      given =
          passed (total given_by rows) (total given_by rows') old.allocated_rewards.amount
            sh.row.allocated_rewards.amount out.amount sh.allocated.amount gave g.given;
      same_total =
          cancelled (total received_by rows) (total received_by rows') old.total_rewards.amount
            sh.row.total_rewards.amount received (ap (λ (a : Asset). a.amount) g.same_total);
      rises = g.rises;
      fair = λ v.
          set_row-Rows IsFair env.self n payer sh.row rows rows' v
            (Gives-IsFair env.self n old out sh g votes (row_or-IsFair env env.self n rows v)) e;
    }

-- The whole loop.
pub allocate-Shares :
    (env : Env) (votes_old votes_delta : Asset) (payer : Name) (vs : List VotedProducer)
    (rows : Table Producer) (out : Asset) (d : Allotted)
    → IsSdk env.sdk
    → allocate env votes_old votes_delta payer vs rows out ≡ ok d
    → Shares rows out d.producers d.allocated
unfolding allocate
allocate-Shares env votes_old votes_delta payer [] rows out d laws h =
    let table : d.producers ≡ rows = ground arith in
    let same : d.allocated ≡ out = ground arith in rw table (rw same (none-Shares rows out))
allocate-Shares env votes_old votes_delta payer (v ∷ vs) rows out d laws h =
    let old = find env.self v.producer rows in
    let p = row_or old (new_producer env v.producer) in
    with_ok (allot env votes_old votes_delta v.last_rewards_per_vote p out) (λ e q. ground arith)
      λ sh a.
        with_ok (set_row old env.self v.producer payer sh.row rows) (λ e q. ground arith)
          λ rows' b.
            with_ok (allocate env votes_old votes_delta payer vs rows' sh.allocated)
              (λ e q. ground arith)
              λ rest c.
                let (gives, votes, nonneg) =
                  allot-Gives env votes_old votes_delta v.last_rewards_per_vote p out sh laws a in
                let first = round-Shares env v.producer payer rows rows' out sh gives nonneg b in
                let later =
                  allocate-Shares env votes_old votes_delta payer vs rows' sh.allocated rest laws
                    c in
                let table : d.producers ≡ rest.producers = ground arith in
                let same : d.allocated ≡ rest.allocated = ground arith in
                rw table (
                  rw same (
                    Shares-trans rows out rows' sh.allocated rest.producers rest.allocated first
                      later))
