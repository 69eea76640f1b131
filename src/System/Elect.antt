-- ===== src/System/Elect.antt =====
-- The order of the producers that are elected, in
-- src_system/contracts/amax.system/include/amax.system/amax.system.hpp. A signing authority is of
-- any type `A`.
pub mod Order
pub mod Changes
pub mod Queue
mod Tests
use amax_contracts.Common.{
  ℕ, ◌+◌, ◌-◌, ◌*◌, ◌%◌, ◌^◌, Bool, true, false, not, ◌&&◌, ◌==◌, ltb, if◌then◌else◌, Result, ok,
  ◌>>=◌, ◌>>◌, check,
}
use amax_contracts.Common.Int.{ℤ, pos, negsuc}
use amax_contracts.Chain.{Name, Asset, Sdk}

-- `struct producer_elected_info`
pub record ElectedInfo (A : Type 0) : Type 0 where
  pub name : Name
  pub is_active : Bool
  pub elected_votes : Asset
  pub authority : A

-- `a < b` of Booleans.
abbrev pub less_bool : Bool → Bool → Bool
less_bool a b = not a && b

module _ {A : Type 0} where
  -- `operator <`. Votes of two symbols cannot be compared.
  unfoldable pub less : Sdk → ElectedInfo A → ElectedInfo A → Result Bool
  less sdk a b =
      if less_bool a.is_active b.is_active
      then ok true
      else if less_bool b.is_active a.is_active
      then ok false
      else do
        fewer ← sdk.lt a.elected_votes b.elected_votes
        if fewer then ok true else do
          more ← sdk.lt b.elected_votes a.elected_votes
          ok (if more then false else ltb b.name a.name)

  -- `operator >`
  unfoldable pub larger : Sdk → ElectedInfo A → ElectedInfo A → Result Bool
  larger sdk a b =
      if less_bool b.is_active a.is_active
      then ok true
      else if less_bool a.is_active b.is_active
      then ok false
      else do
        more ← sdk.lt b.elected_votes a.elected_votes
        if more then ok true else do
          fewer ← sdk.lt a.elected_votes b.elected_votes
          ok (if fewer then false else ltb a.name b.name)

  -- `operator <=` and `operator >=`
  unfoldable pub at_most : Sdk → ElectedInfo A → ElectedInfo A → Result Bool
  at_most sdk a b = do over ← larger sdk a b; ok (not over)

  unfoldable pub at_least : Sdk → ElectedInfo A → ElectedInfo A → Result Bool
  at_least sdk a b = do under ← less sdk a b; ok (not under)

  -- `operator ==` compares no authority.
  unfoldable pub same : Sdk → ElectedInfo A → ElectedInfo A → Result Bool
  same sdk a b =
      if not (less_bool a.is_active b.is_active) && not (less_bool b.is_active a.is_active)
      then (do votes ← sdk.eq a.elected_votes b.elected_votes; ok (votes && a.name == b.name))
      else ok false

-- The conversion of an `int64_t` to `uint64_t`.
abbrev pub to_uint64 : ℤ → ℕ
to_uint64 (pos n) = n % 2 ^ 64
to_uint64 (negsuc n) = 2 ^ 64 - 1 - n % 2 ^ 64

-- `producer_info::by_elected_prod`, the key of the index that orders producers: the better ones
-- have the lower keys.
unfoldable pub by_elected_prod : Name → Bool → Asset → Result ℕ
by_elected_prod owner is_active votes = do
  let amount = to_uint64 votes.amount
  check (ltb amount (2 ^ 63 - 1)) "amount < int64_max"
  let hi = if is_active then 2 ^ 63 - 1 - amount else 2 ^ 64 - 1 - amount
  ok (hi * 2 ^ 64 + owner)
