-- ===== src/System/Elect/Tests.antt =====
-- Two producers in the order of their votes, and a deletion merged into an addition.
use amax_contracts.Common.{
  ℕ, ◌+◌, ◌-◌, ◌*◌, ◌==◌, ltb, if◌then◌else◌, ◌≡◌, refl, true, false, Option, some, none, [], ◌∷◌,
  arith, ok,
}
use amax_contracts.Common.Int.{pos}
use amax_contracts.Chain.{Symbol, Name, asset}
use amax_contracts.Chain.Sample.{sdk, sdk-IsSdk}
use amax_contracts.System.Elect.{ElectedInfo, less, larger, same, by_elected_prod}
use amax_contracts.System.Elect.Order.{IsElectable, order-by_elected_prod}
use amax_contracts.System.Elect.Changes.{
  ChangeMap, adds, modifies, deletes, visit, visit_all, add, modify, del, merge_map,
}
use amax_contracts.System.Elect.Changes.Merging.{Fits, base, proposed, merge_map-proposed}

abbrev vote : Symbol
vote = record { code = 86; precision = 4 }

abbrev alice : ElectedInfo ℕ
alice = record { name = 3; is_active = true; elected_votes = asset (pos 500) vote; authority = 1 }

abbrev bob : ElectedInfo ℕ
bob = record { name = 4; is_active = true; elected_votes = asset (pos 400) vote; authority = 2 }

abbrev alice_key : ℕ
alice_key = (9223372036854775807 - 500) * 18446744073709551616 + 3

abbrev bob_key : ℕ
bob_key = (9223372036854775807 - 400) * 18446744073709551616 + 4

alice_at : by_elected_prod alice.name true alice.elected_votes ≡ ok alice_key
unfolding by_elected_prod
alice_at = refl

bob_at : by_elected_prod bob.name true bob.elected_votes ≡ ok bob_key
unfolding by_elected_prod
bob_at = refl

alice-IsElectable : IsElectable alice 500
alice-IsElectable = (refl, omega arith, omega arith)

bob-IsElectable : IsElectable bob 400
bob-IsElectable = (refl, omega arith, omega arith)

order-by_elected_prod_example :
    (larger sdk alice bob ≡ ok (ltb alice_key bob_key))
    × (less sdk alice bob ≡ ok (ltb bob_key alice_key))
    × (same sdk alice bob ≡ ok (alice_key == bob_key))
order-by_elected_prod_example =
    order-by_elected_prod sdk alice bob 500 400 alice_key bob_key sdk-IsSdk alice-IsElectable
      bob-IsElectable refl alice_at bob_at

-- Producer 3 is scheduled first, with the authority 7.
abbrev first : Name → Option ℕ
first n = if n == 3 then some 7 else none

-- 4 joins and 3 leaves, then 4 leaves and 3 is back.
abbrev dest : ChangeMap ℕ
dest = record {
  clear_existed = false;
  producer_count = 1;
  changes = record { name = 3; change = deletes } ∷ record { name = 4; change = adds 8 } ∷ [];
}

abbrev src : ChangeMap ℕ
src = record {
  clear_existed = false;
  producer_count = 1;
  changes = record { name = 3; change = adds 9 } ∷ record { name = 4; change = deletes } ∷ [];
}

dest-Fits : Fits (base first dest) dest.changes
dest-Fits n = ground arith

src-Fits : Fits (base (proposed first dest) src) src.changes
src-Fits n = ground arith

-- 3 has another authority, and nothing is left of 4.
merged :
    merge_map src dest ≡ ok (record src { changes = record { name = 3; change = modifies 9 } ∷ [] })
unfolding merge_map visit_all visit add modify del
merged = refl

merge_map-proposed_example :
    (r : ChangeMap ℕ) × (merge_map src dest ≡ ok r)
    × ((n : Name) → proposed first r n ≡ proposed (proposed first dest) src n)
    × Fits (base first r) r.changes
    × (r.producer_count ≡ src.producer_count)
merge_map-proposed_example = merge_map-proposed first src dest dest-Fits (refl, (refl, tt)) src-Fits
