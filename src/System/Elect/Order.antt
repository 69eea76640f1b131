-- ===== src/System/Elect/Order.antt =====
-- The comparisons of elected producers agree with the index of the table of producers.
use amax_contracts.Common.{
  ℕ, ◌+◌, ◌-◌, ◌*◌, ◌<◌, ◌≤◌, ◌≡◌, sym, Bool, ◌==◌, ltb, if◌then◌else◌, arith, ok, with_ok,
}
use amax_contracts.Common.Int.{pos}
use amax_contracts.Chain.{Sdk, IsSdk, max_amount}
use amax_contracts.System.Elect.{ElectedInfo, less, larger, same, by_elected_prod}

-- The key of a producer with `n` votes.
abbrev pub key : ℕ → Bool → ℕ → ℕ
key owner is_active n =
    (if is_active then 9223372036854775807 - n else 18446744073709551615 - n) * 18446744073709551616
    + owner

module _ {A : Type 0} where
  abbrev pub IsElectable : ElectedInfo A → ℕ → Type 0
  IsElectable a n =
      (a.elected_votes.amount ≡ pos n) × (n ≤ max_amount) × (a.name < 18446744073709551616)

  key_lem :
      (a : ElectedInfo A) (n k : ℕ)
      → IsElectable a n
      → by_elected_prod a.name a.is_active a.elected_votes ≡ ok k
      → k ≡ key a.name a.is_active n
  unfolding by_elected_prod
  key_lem a n k h e = let (x, y, z) = h in ground arith

  compared :
      (sdk : Sdk) (a b : ElectedInfo A) (m n : ℕ)
      → IsSdk sdk
      → IsElectable a m
      → IsElectable b n
      → b.elected_votes.symbol ≡ a.elected_votes.symbol
      → sdk.lt a.elected_votes b.elected_votes ≡ ok (ltb m n)
  compared sdk a b m n laws h g e =
      let law = laws.lt_lem a.elected_votes b.elected_votes in
      let (x, u, v) = h in
      let (y, w, z) = g in
      with_ok (sdk.lt a.elected_votes b.elected_votes) (λ m q. ground arith) λ r q. ground arith

  larger_lem :
      (sdk : Sdk) (a b : ElectedInfo A) (m n : ℕ)
      → IsSdk sdk
      → IsElectable a m
      → IsElectable b n
      → a.elected_votes.symbol ≡ b.elected_votes.symbol
      → larger sdk a b ≡ ok (ltb (key a.name a.is_active m) (key b.name b.is_active n))
  unfolding larger
  larger_lem sdk a b m n laws h g e =
      let (x, u, v) = h in
      let (y, w, z) = g in
      let p = compared sdk a b m n laws h g (sym e) in
      let q = compared sdk b a n m laws g h e in rw p (rw q (ground arith))

  less_lem :
      (sdk : Sdk) (a b : ElectedInfo A) (m n : ℕ)
      → IsSdk sdk
      → IsElectable a m
      → IsElectable b n
      → a.elected_votes.symbol ≡ b.elected_votes.symbol
      → less sdk a b ≡ ok (ltb (key b.name b.is_active n) (key a.name a.is_active m))
  unfolding less
  less_lem sdk a b m n laws h g e =
      let (x, u, v) = h in
      let (y, w, z) = g in
      let p = compared sdk a b m n laws h g (sym e) in
      let q = compared sdk b a n m laws g h e in rw p (rw q (ground arith))

  same_lem :
      (sdk : Sdk) (a b : ElectedInfo A) (m n : ℕ)
      → IsSdk sdk
      → IsElectable a m
      → IsElectable b n
      → a.elected_votes.symbol ≡ b.elected_votes.symbol
      → same sdk a b ≡ ok (key a.name a.is_active m == key b.name b.is_active n)
  unfolding same
  same_lem sdk a b m n laws h g e =
      let (x, u, v) = h in
      let (y, w, z) = g in
      let law = laws.eq_lem a.elected_votes b.elected_votes in
      with_ok (sdk.eq a.elected_votes b.elected_votes) (λ m q. ground arith) λ r q. ground arith

  -- The comparisons of elected producers are the order of the index `electedprod`: of two producers
  -- whose votes have one symbol and are not negative, in range, with the index keys `j` and `k`, the
  -- first is larger if its key is lower, less if its key is higher, and the same if the keys are.
  pub order-by_elected_prod :
      (sdk : Sdk) (a b : ElectedInfo A) (m n j k : ℕ)
      → IsSdk sdk
      → IsElectable a m
      → IsElectable b n
      → a.elected_votes.symbol ≡ b.elected_votes.symbol
      → by_elected_prod a.name a.is_active a.elected_votes ≡ ok j
      → by_elected_prod b.name b.is_active b.elected_votes ≡ ok k
      → (larger sdk a b ≡ ok (ltb j k))
        × (less sdk a b ≡ ok (ltb k j))
        × (same sdk a b ≡ ok (j == k))
  order-by_elected_prod sdk a b m n j k laws h g e x y = rw (key_lem a m j h x) (
      rw (key_lem b n k g y) (
        larger_lem sdk a b m n laws h g e,
        less_lem sdk a b m n laws h g e,
        same_lem sdk a b m n laws h g e,
      ))
