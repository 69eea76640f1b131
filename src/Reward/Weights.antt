-- ===== src/Reward/Weights.antt =====
-- The names in a voter's map, and the votes that they stand for.
use amax_contracts.Common.{
  ◌≡◌, refl, ◌<◌, ◌==◌, ltb, if◌then◌else◌, true, List, [], ◌∷◌, arith, Bool-cases, inl, inr,
}
use amax_contracts.Common.Int.{ℤ, pos, ◌+ℤ◌, ◌-ℤ◌, int_laws}
use amax_contracts.Chain.{Name}
use amax_contracts.Reward.{VotedProducer}
use amax_contracts.Reward.Merge.{compare_votes, map_emplace, emplace_all, sorted_after, is_sorted}

abbrev pub names : List VotedProducer → List Name
names [] = []
names (v ∷ vs) = v.producer ∷ names vs

-- `x` for each time that a name stands in a list.
abbrev pub weight : Name → List Name → ℤ → ℤ
weight k [] x = pos 0
weight k (n ∷ ns) x = (if n == k then x else pos 0) +ℤ weight k ns x

pub weight-add :
    (k : Name) (ns : List Name) (x y : ℤ) → weight k ns (x +ℤ y) ≡ weight k ns x +ℤ weight k ns y
weight-add k [] x y = omega int_laws
weight-add k (n ∷ ns) x y = grind (int_laws, weight-add k ns x y)

pub weight-zero : (k : Name) (ns : List Name) → weight k ns (pos 0) ≡ pos 0
weight-zero k [] = refl
weight-zero k (n ∷ ns) = grind (int_laws, weight-zero k ns)

pub weight-negated :
    (k : Name) (ns : List Name) (x : ℤ) → weight k ns (pos 0 -ℤ x) +ℤ weight k ns x ≡ pos 0
weight-negated k [] x = omega int_laws
weight-negated k (n ∷ ns) x = grind (int_laws, weight-negated k ns x)

-- Each name of the voter's map is kept or removed.
pub weight-compare_votes :
    (k : Name) (vs : List VotedProducer) (ns : List Name) (x : ℤ)
    → weight k (names (compare_votes vs ns).kept) x
        +ℤ weight k (names (compare_votes vs ns).removed) x
      ≡ weight k (names vs) x
unfolding compare_votes
weight-compare_votes k [] [] x = omega int_laws
weight-compare_votes k [] (n ∷ ns) x = weight-compare_votes k [] ns x
weight-compare_votes k (v ∷ vs) [] x = grind (int_laws, weight-compare_votes k vs [] x)
weight-compare_votes k (v ∷ vs) (n ∷ ns) x = elim (Bool-cases (ltb v.producer n)) [
  | inl e ↦ rw e (grind (int_laws, weight-compare_votes k vs (n ∷ ns) x))
  | inr e ↦ elim (Bool-cases (ltb n v.producer)) [
    | inl f ↦ rw e (rw f (weight-compare_votes k (v ∷ vs) ns x))
    | inr f ↦ rw e (rw f (grind (int_laws, weight-compare_votes k vs ns x)))
  ]
]

-- A list in which each name comes from one of two others, in their orders.
pub data Weave : List Name → List Name → List Name → Type 0 where
  done : Weave [] [] []
  first : (n : Name) {xs ys ns : List Name} → Weave xs ys ns → Weave (n ∷ xs) ys (n ∷ ns)
  second : (n : Name) {xs ys ns : List Name} → Weave xs ys ns → Weave xs (n ∷ ys) (n ∷ ns)

pub weight-Weave :
    (k : Name) (x : ℤ) {xs ys ns : List Name}
    → Weave xs ys ns
    → weight k ns x ≡ weight k xs x +ℤ weight k ys x
weight-Weave k x done = omega int_laws
weight-Weave k x (first n w) = grind (int_laws, weight-Weave k x w)
weight-Weave k x (second n w) = grind (int_laws, weight-Weave k x w)

-- All names of a list come after one.
abbrev pub After : Name → List Name → Type 0
After n [] = Unit
After n (m ∷ ms) = (n < m) × After n ms

abbrev pub Ascending : List Name → Type 0
Ascending [] = Unit
Ascending (n ∷ ns) = After n ns × Ascending ns

After-Weave :
    (k : Name) {xs ys ns : List Name} → Weave xs ys ns → After k ns → After k xs × After k ys
After-Weave k done h = (tt, tt)
After-Weave k (first n w) h = let (p, q) = After-Weave k w h.1 in ((h.0, p), q)
After-Weave k (second n w) h = let (p, q) = After-Weave k w h.1 in (p, (h.0, q))

pub compare_votes-Weave :
    (vs : List VotedProducer) (ns : List Name)
    → Weave (names (compare_votes vs ns).added) (names (compare_votes vs ns).kept) ns
unfolding compare_votes
compare_votes-Weave [] [] = done
compare_votes-Weave [] (n ∷ ns) = first n (compare_votes-Weave [] ns)
compare_votes-Weave (v ∷ vs) [] = compare_votes-Weave vs []
compare_votes-Weave (v ∷ vs) (n ∷ ns) = elim (Bool-cases (ltb v.producer n)) [
  | inl e ↦ rw e (compare_votes-Weave vs (n ∷ ns))
  | inr e ↦ elim (Bool-cases (ltb n v.producer)) [
    | inl f ↦ rw e (rw f (first n (compare_votes-Weave (v ∷ vs) ns)))
    | inr f ↦
        let same : v.producer ≡ n = ground arith in
        rw e (rw f (rw same (second n (compare_votes-Weave vs ns))))
  ]
]

map_emplace_before :
    (v : VotedProducer) (ws : List VotedProducer)
    → After v.producer (names ws)
    → map_emplace v ws ≡ v ∷ ws
unfolding map_emplace
map_emplace_before v [] h = refl
map_emplace_before v (w ∷ ws) h = ground arith

map_emplace_past :
    (v w : VotedProducer) (ws : List VotedProducer)
    → w.producer < v.producer
    → map_emplace v (w ∷ ws) ≡ w ∷ map_emplace v ws
unfolding map_emplace
map_emplace_past v w ws h = ground arith

emplace_all_past :
    (w : VotedProducer) (vs ws : List VotedProducer)
    → After w.producer (names vs)
    → emplace_all vs (w ∷ ws) ≡ w ∷ emplace_all vs ws
unfolding emplace_all
emplace_all_past w [] ws h = refl
emplace_all_past w (v ∷ vs) ws h =
    rw (map_emplace_past v w ws h.0) (emplace_all_past w vs (map_emplace v ws) h.1)

-- Putting new entries into a map, where the names of both make up one ascending list, gives a map
-- with that list of names.
pub names-emplace_all :
    {xs ys ns : List Name}
    → Weave xs ys ns
    → Ascending ns
    → (vs ws : List VotedProducer) → names vs ≡ xs
    → names ws ≡ ys
    → names (emplace_all vs ws) ≡ ns
unfolding emplace_all
names-emplace_all done h [] [] e f = refl
names-emplace_all done h [] (w ∷ ws) e f = cc
names-emplace_all done h (v ∷ vs) ws e f = cc
names-emplace_all (first n {xs} {ys} {ns} w) h [] ws e f = cc
names-emplace_all (first n {xs} {ys} {ns} w) h (v ∷ vs) ws e f =
    let head : v.producer ≡ n = cc in
    let tail : names vs ≡ xs = cc in
    let (p, q) = After-Weave n w h.0 in
    let before : After v.producer (names ws) = rw head (rw f q) in
    let after : After v.producer (names vs) = rw head (rw tail p) in
    rw (map_emplace_before v ws before)
      (rw (emplace_all_past v vs ws after) (rw head (rw (names-emplace_all w h.1 vs ws tail f))))
names-emplace_all (second n {xs} {ys} {ns} w) h vs [] e f = cc
names-emplace_all (second n {xs} {ys} {ns} w) h vs (v ∷ ws) e f =
    let head : v.producer ≡ n = cc in
    let tail : names ws ≡ ys = cc in
    let (p, q) = After-Weave n w h.0 in
    let after : After v.producer (names vs) = rw head (rw e p) in
    rw (emplace_all_past v vs ws after) (rw head (rw (names-emplace_all w h.1 vs ws e tail)))

After-lt : (n m : Name) (ns : List Name) → n < m → After m ns → After n ns
After-lt n m [] h a = tt
After-lt n m (k ∷ ks) h a = (omega (arith, a.0), After-lt n m ks h a.1)

sorted_after-After :
    (n : Name) (ns : List Name) → sorted_after n ns ≡ true → After n ns × Ascending ns
unfolding sorted_after
sorted_after-After n [] h = (tt, tt)
sorted_after-After n (m ∷ ms) h =
    let (p, q) = sorted_after-After m ms (ground arith) in
    ((ground arith, After-lt n m ms (ground arith) p), (p, q))

-- The test of `voteproducer` is that of an ascending list.
pub is_sorted-Ascending : (ns : List Name) → is_sorted ns ≡ true → Ascending ns
unfolding is_sorted
is_sorted-Ascending [] h = tt
is_sorted-Ascending (n ∷ ns) h = sorted_after-After n ns h
