-- ===== src/Reward/Merge.antt =====
-- The loop of `voteproducer` that compares the voter's map with the producers now voted for.
use amax_contracts.Common.{ltb, if◌then◌else◌, Bool, true, ◌&&◌, ◌==◌, List, [], ◌∷◌}
use amax_contracts.Common.Int.{pos}
use amax_contracts.Chain.{Name}
use amax_contracts.Reward.{VotedProducer}

-- The entries that stay in the voter's map, those that are erased from it, and the new ones.
pub record Changes : Type 0 where
  pub kept : List VotedProducer
  pub removed : List VotedProducer
  pub added : List VotedProducer

abbrev pub fresh_vote : Name → VotedProducer
fresh_vote n = record { producer = n; last_rewards_per_vote = pos 0 }

abbrev pub keep : VotedProducer → Changes → Changes
keep v c = record c { kept = v ∷ c.kept }

abbrev pub remove : VotedProducer → Changes → Changes
remove v c = record c { removed = v ∷ c.removed }

abbrev pub add : Name → Changes → Changes
add n c = record c { added = fresh_vote n ∷ c.added }

unfoldable pub compare_votes : List VotedProducer → List Name → Changes
compare_votes [] [] = record { kept = []; removed = []; added = [] }
compare_votes [] (n ∷ ns) = add n (compare_votes [] ns)
compare_votes (v ∷ vs) [] = remove v (compare_votes vs [])
compare_votes (v ∷ vs) (n ∷ ns) =
    let discarded = remove v (compare_votes vs (n ∷ ns)) in
    let added = add n (compare_votes (v ∷ vs) ns) in
    let same = keep v (compare_votes vs ns) in
    if ltb v.producer n then discarded else if ltb n v.producer then added else same

-- `std::map::emplace`: an entry that is there already stays.
unfoldable pub map_emplace : VotedProducer → List VotedProducer → List VotedProducer
map_emplace v [] = v ∷ []
map_emplace v (w ∷ ws) =
    let rest = w ∷ map_emplace v ws in
    if ltb v.producer w.producer
    then v ∷ w ∷ ws
    else if v.producer == w.producer
    then w ∷ ws
    else rest

unfoldable pub emplace_all : List VotedProducer → List VotedProducer → List VotedProducer
emplace_all [] ws = ws
emplace_all (v ∷ vs) ws = emplace_all vs (map_emplace v ws)

-- The loop that checks that each producer is before the next.
unfoldable pub sorted_after : Name → List Name → Bool
sorted_after n [] = true
sorted_after n (m ∷ ms) = ltb n m && sorted_after m ms

unfoldable pub is_sorted : List Name → Bool
unfolding sorted_after
is_sorted [] = true
is_sorted (n ∷ ns) = sorted_after n ns
