-- ===== src/Reward/Ballots.antt =====
-- The votes of the producers of amax.reward are those of the voters who vote for them.
use amax_contracts.Common.{
  ◌≡◌, refl, ap, ◌∙◌, ◌==◌, if◌then◌else◌, Option, none, some, List, [], ◌∷◌, arith, ok, with_ok,
  Option-cases, Bool-cases, inl, inr,
}
use amax_contracts.Common.Int.{ℤ, pos, ◌+ℤ◌, int_laws}
use amax_contracts.Chain.{Name, Asset, IsSdk}
use amax_contracts.Chain.Table.{Table, find}
use amax_contracts.Reward.{
  Producer, VotedProducer, Env, new_producer, set_row, row_or, allot, Allotted, allocate,
}
use amax_contracts.Reward.Rows.{find-set_row}
use amax_contracts.Reward.Allotments.{allot-Gives}
use amax_contracts.Reward.Weights.{names, weight}

abbrev votes_in : Option Producer → ℤ
votes_in none = pos 0
votes_in (some p) = p.votes.amount

-- The votes of a producer, which are none without a row.
abbrev pub votes_of : Name → Name → Table Producer → ℤ
votes_of self k rows = votes_in (find self k rows)

pub old_votes :
    (env : Env) (n k : Name) (rows : Table Producer)
    → n ≡ k
    → (row_or (find env.self n rows) (new_producer env n)).votes.amount ≡ votes_of env.self k rows
old_votes env n k rows here = elim (Option-cases (find env.self n rows)) [
  | inl e ↦ rw (← here) (rw e refl)
  | inr (p, e) ↦ rw (← here) (rw e refl)
]

added : (a b c x y : ℤ) → b ≡ a +ℤ x → c ≡ b +ℤ y → c ≡ a +ℤ (x +ℤ y)
added a b c x y e f = grind int_laws

votes_of-set_row :
    (env : Env) (n payer k : Name) (row : Producer) (rows rows' : Table Producer) (delta : ℤ)
    → set_row (find env.self n rows) env.self n payer row rows ≡ ok rows'
    → row.votes.amount ≡ (row_or (find env.self n rows) (new_producer env n)).votes.amount +ℤ delta
    → votes_of env.self k rows' ≡ votes_of env.self k rows +ℤ (if n == k then delta else pos 0)
votes_of-set_row env n payer k row rows rows' delta e v =
    let found = find-set_row env.self n payer env.self k row rows rows' e in
    elim (Bool-cases (n == k)) [
      | inl same ↦
          let here : n ≡ k = ground arith in
          let row_found : find env.self k rows' ≡ some row = ground arith in
          rw same (rw row_found (v ∙ ap (λ (z : ℤ). z +ℤ delta) (old_votes env n k rows here)))
      | inr other ↦
          let kept : find env.self k rows' ≡ find env.self k rows = ground arith in
          rw other (rw kept (omega int_laws))
    ]

pub names-allocate :
    (env : Env) (votes_old delta : Asset) (payer : Name) (vs : List VotedProducer)
    (rows : Table Producer) (out : Asset) (d : Allotted)
    → allocate env votes_old delta payer vs rows out ≡ ok d
    → names d.voted ≡ names vs
unfolding allocate
names-allocate env votes_old delta payer [] rows out d h = ground arith
names-allocate env votes_old delta payer (v ∷ vs) rows out d h =
    let old = find env.self v.producer rows in
    let p = row_or old (new_producer env v.producer) in
    with_ok (allot env votes_old delta v.last_rewards_per_vote p out) (λ e q. ground arith)
      λ sh a.
        with_ok (set_row old env.self v.producer payer sh.row rows) (λ e q. ground arith)
          λ rows' b.
            with_ok (allocate env votes_old delta payer vs rows' sh.allocated) (λ e q. ground arith)
              λ rest c.
                let later = names-allocate env votes_old delta payer vs rows' sh.allocated rest c in
                ground arith

-- The loop adds the change to each producer of the list.
pub votes_of-allocate :
    (env : Env) (votes_old delta : Asset) (payer k : Name) (vs : List VotedProducer)
    (rows : Table Producer) (out : Asset) (d : Allotted)
    → IsSdk env.sdk
    → allocate env votes_old delta payer vs rows out ≡ ok d
    → votes_of env.self k d.producers ≡ votes_of env.self k rows +ℤ weight k (names vs) delta.amount
unfolding allocate
votes_of-allocate env votes_old delta payer k [] rows out d laws h =
    let table : d.producers ≡ rows = ground arith in rw table (omega int_laws)
votes_of-allocate env votes_old delta payer k (v ∷ vs) rows out d laws h =
    let old = find env.self v.producer rows in
    let p = row_or old (new_producer env v.producer) in
    with_ok (allot env votes_old delta v.last_rewards_per_vote p out) (λ e q. ground arith)
      λ sh a.
        with_ok (set_row old env.self v.producer payer sh.row rows) (λ e q. ground arith)
          λ rows' b.
            with_ok (allocate env votes_old delta payer vs rows' sh.allocated) (λ e q. ground arith)
              λ rest c.
                let (gives, votes, nonneg) =
                  allot-Gives env votes_old delta v.last_rewards_per_vote p out sh laws a in
                let round =
                  votes_of-set_row env v.producer payer k sh.row rows rows' delta.amount b votes in
                let later =
                  votes_of-allocate env votes_old delta payer k vs rows' sh.allocated rest laws c in
                let table : d.producers ≡ rest.producers = ground arith in
                rw table (
                  added (votes_of env.self k rows) (votes_of env.self k rows')
                    (votes_of env.self k rest.producers)
                    (if v.producer == k then delta.amount else pos 0)
                    (weight k (names vs) delta.amount) round later)
