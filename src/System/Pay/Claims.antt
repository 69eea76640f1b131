-- ===== src/System/Pay/Claims.antt =====
-- A producer's claim.
use amax_contracts.Common.{
  ℕ, ◌+◌, ◌-◌, ◌*◌, ◌/◌, ◌%◌, ◌^◌, ◌≤◌, ◌<◌, ◌≡◌, refl, sym, ap, ◌∙◌, true, if◌then◌else◌, some,
  ◌∷◌, ◌++◌, arith, ok, with_ok, with_some, Bool-cases, ◌⊎◌, inl, inr, zero, suc, false, List,
}
use amax_contracts.Common.Int.{ℤ, pos, negsuc, ◌+ℤ◌, ◌*ℤ◌, ◌/ℤ◌, ltb_ℤ, int_laws}
use amax_contracts.Chain.{Name, Asset, asset, IsSdk}
use amax_contracts.Chain.Names
use amax_contracts.Chain.Table.{find, modify_same}
use amax_contracts.Safe.Products.{mul_pp, div_pp}
use amax_contracts.Ido.Rounding.{half_up}
use amax_contracts.System.Pay.{
  ProducerInfo, Sent, issued, transferred, registered, State, Env, ratio_boost, multiply_decimal64,
}
use amax_contracts.System.Pay.Operations.{share_actions, sec_since_epoch, claimrewards}

-- The shared part of `a`, to the nearest unit, a half going up.
abbrev pub shared_part : ℕ → ℕ → ℕ
shared_part a ratio = (2 * (a * ratio) + 10000) / 20000

regroup : (a ratio : ℕ) → 10 * a * ratio ≡ 10 * (a * ratio)
regroup a ratio = grind arith

pub multiply_decimal64_lem :
    (a ratio : ℕ) (r : ℤ)
    → multiply_decimal64 (pos a) (pos ratio) (pos ratio_boost) ≡ ok r
    → r ≡ pos (shared_part a ratio)
unfolding multiply_decimal64
multiply_decimal64_lem a ratio r h =
    let tmp : pos 10 *ℤ pos a *ℤ pos ratio /ℤ pos ratio_boost ≡ pos (10 * (a * ratio) / 10000) =
      rw (mul_pp 10 a) (
        rw (mul_pp (10 * a) ratio) (
          rw (div_pp (10 * a * ratio) 10000)
            (ap (λ (n : ℕ). pos (n / 10000)) (regroup a ratio)))) in
    let sum : pos (10 * (a * ratio) / 10000) +ℤ pos 5 ≡ pos (10 * (a * ratio) / 10000 + 5) =
      omega int_laws in
    let value : (pos 10 *ℤ pos a *ℤ pos ratio /ℤ pos ratio_boost +ℤ pos 5) /ℤ pos 10
        ≡ pos (shared_part a ratio) =
      rw tmp (
        rw sum (
          rw (div_pp (10 * (a * ratio) / 10000 + 5) 10)
            (ap pos (half_up (a * ratio) 10000 (omega arith))))) in
    let result : r ≡ (pos 10 *ℤ pos a *ℤ pos ratio /ℤ pos ratio_boost +ℤ pos 5) /ℤ pos 10 =
      ground arith in
    result ∙ value

abbrev pub cleared : Env → ProducerInfo → ProducerInfo
cleared env p = record p {
  unclaimed_rewards = asset (pos 0) p.unclaimed_rewards.symbol;
  last_claimed_time = env.now;
}

-- After a claim of a row, of which `shared` goes to voters: its rewards are issued, paid, and
-- partly shared.
abbrev pub sharing : Env → Name → ProducerInfo → State → Asset → State
sharing env owner p st shared = record st {
  producers = modify_same env.self owner (cleared env p) st.producers;
  sent =
      share_actions env owner shared
      ++ transferred env.self p.owner p.unclaimed_rewards
        ∷ issued env.self p.unclaimed_rewards
        ∷ st.sent;
}

positive : {G : Type 0} (z : ℤ) → ltb_ℤ (pos 0) z ≡ true → ((n : ℕ) → 0 < n → z ≡ pos n → G) → G
positive (pos n) h rest = rest n (ground arith) refl
positive (negsuc n) h rest = absurd (ground arith)

abbrev pub elapsed : Env → ProducerInfo → ℕ
elapsed env p = (sec_since_epoch env.now + 2 ^ 32 - sec_since_epoch p.last_claimed_time) % 2 ^ 32

-- The asset of the shared part, which is only checked when it is positive.
made :
    (env : Env) (a : ℤ) (p : ProducerInfo) (shared : Asset)
    → IsSdk env.sdk
    → (if ltb_ℤ (pos 0) a
        then env.sdk.make a p.unclaimed_rewards.symbol
        else ok (asset a p.unclaimed_rewards.symbol))
      ≡ ok shared
    → shared ≡ asset a p.unclaimed_rewards.symbol
made env a p shared laws h = elim (Bool-cases (ltb_ℤ (pos 0) a)) [
  | inl c ↦
      let law = laws.make_lem a p.unclaimed_rewards.symbol in
      with_ok (env.sdk.make a p.unclaimed_rewards.symbol) (λ m q. ground arith) λ z q. ground arith
  | inr c ↦ ground arith
]

-- What a claim comes to, with the actions that share as the code collects them.
pub claimrewards-sharing :
    (env : Env) (submitter owner : Name) (st st' : State)
    → IsSdk env.sdk
    → claimrewards env submitter owner st ≡ ok st'
    → (p : ProducerInfo) × (u : ℕ) × (ratio : ℕ) × (find env.self owner st.producers ≡ some p)
      × (p.is_active ≡ true)
      × (p.unclaimed_rewards.amount ≡ pos u)
      × (p.reward_shared_ratio ≡ some ratio)
      × (0 < u)
      × (84600 ≤ elapsed env p)
      × (shared_part u ratio ≤ u)
      × (st'
          ≡ sharing env owner p st (asset (pos (shared_part u ratio)) p.unclaimed_rewards.symbol))
unfolding claimrewards
claimrewards-sharing env submitter owner st st' laws h =
    with_some (find env.self owner st.producers) (λ q. ground arith)
      λ p f.
        with_some p.reward_shared_ratio (λ q. ground arith)
          λ ratio g.
            with_ok (multiply_decimal64 p.unclaimed_rewards.amount (pos ratio) (pos ratio_boost))
              (λ m q. ground arith)
              λ part a.
                with_ok
                  (if ltb_ℤ (pos 0) part
                    then env.sdk.make part p.unclaimed_rewards.symbol
                    else ok (asset part p.unclaimed_rewards.symbol))
                  (λ m q. ground arith)
                  λ shared b. positive p.unclaimed_rewards.amount (ground arith) λ u above amount.
                    let result : st' ≡ sharing env owner p st shared = ground arith in
                    let part_is : part ≡ pos (shared_part u ratio) =
                      multiply_decimal64_lem u ratio part (rw (sym amount) a) in
                    let shared_is : shared
                        ≡ asset (pos (shared_part u ratio)) p.unclaimed_rewards.symbol =
                      made env part p shared laws b
                      ∙ ap (λ (z : ℤ). asset z p.unclaimed_rewards.symbol) part_is in
                    (
                      p,
                      u,
                      ratio,
                      f,
                      ground arith,
                      amount,
                      g,
                      above,
                      ground arith,
                      ground arith,
                      result ∙ ap (sharing env owner p st) shared_is,
                    )

-- The actions of a claim, the newest first, of which `part` units go to voters: the rewards are
-- issued and paid to the producer, and the part of the voters goes on from there to the contract
-- that shares it, where the producer is registered first unless it already is.
abbrev pub Pays : Env → Name → ProducerInfo → ℕ → List Sent → List Sent → Type 0
Pays env owner p part before after =
    let paid =
      transferred env.self p.owner p.unclaimed_rewards
      ∷ issued env.self p.unclaimed_rewards
      ∷ before in
    let shares =
      transferred owner Names.amax_reward (asset (pos part) p.unclaimed_rewards.symbol) in
    ((part ≡ 0) × (after ≡ paid))
    ⊎ ((0 < part) × (env.is_producer_registered owner ≡ true) × (after ≡ shares ∷ paid))
    ⊎ ((0 < part)
        × (env.is_producer_registered owner ≡ false)
        × (after ≡ shares ∷ registered owner ∷ paid))

sharing-Pays :
    (env : Env) (owner : Name) (p : ProducerInfo) (st : State) (part : ℕ)
    → Pays env owner p part st.sent
        (sharing env owner p st (asset (pos part) p.unclaimed_rewards.symbol)).sent
sharing-Pays env owner p st zero = inl (refl, refl)
sharing-Pays env owner p st (suc n) =
    let above : ltb_ℤ (pos 0) (pos (suc n)) ≡ true = ground arith in
    elim (Bool-cases (env.is_producer_registered owner)) [
      | inl a ↦ inr (inl (omega arith, a, rw above (rw a refl)))
      | inr a ↦ inr (inr (omega arith, a, rw above (rw a refl)))
    ]

-- A claim that goes through is of an active producer with unclaimed rewards, 23.5 hours after its
-- last. All of its rewards are issued and paid to it; the part of its voters, its ratio of the
-- rewards rounded to the nearest unit, is at most all of them and goes on to the contract
-- amax.reward, after the producer is registered there if it is not, where that part is not nothing.
-- Nothing is left unclaimed in the row, whose time of the last claim is now, and no other row and
-- no other part of the state changes.
pub claimrewards-eq_claim :
    (env : Env) (submitter owner : Name) (st st' : State)
    → IsSdk env.sdk
    → claimrewards env submitter owner st ≡ ok st'
    → (p : ProducerInfo) × (u : ℕ) × (ratio : ℕ) × (find env.self owner st.producers ≡ some p)
      × (p.is_active ≡ true)
      × (p.unclaimed_rewards.amount ≡ pos u)
      × (p.reward_shared_ratio ≡ some ratio)
      × (0 < u)
      × (84600 ≤ elapsed env p)
      × (shared_part u ratio ≤ u)
      × Pays env owner p (shared_part u ratio) st.sent st'.sent
      × (st' ≡ record st {
        producers = modify_same env.self owner (cleared env p) st.producers;
        sent = st'.sent;
      })
claimrewards-eq_claim env submitter owner st st' laws h =
    let (p, u, ratio, f, active, amount, shared, above, late, part, result) =
      claimrewards-sharing env submitter owner st st' laws h in
    (
      p,
      u,
      ratio,
      f,
      active,
      amount,
      shared,
      above,
      late,
      part,
      rw result (sharing-Pays env owner p st (shared_part u ratio)),
      rw result refl,
    )
