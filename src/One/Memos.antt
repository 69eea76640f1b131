-- ===== src/One/Memos.antt =====
-- The text helpers of src_mining/contracts/amax.one/include/utils.hpp that a memo is read with, and
-- `_get_ads_id`. Text is its bytes.
use amax_contracts.Common.{ℕ, Bool, true, false, ◌&&◌, ◌==◌, if◌then◌else◌, List, [], ◌∷◌, ◌++◌}
use amax_contracts.Chain.{Memo}

unfoldable pub trim_left : Memo → Memo
trim_left [] = []
trim_left (c ∷ cs) = let rest = trim_left cs in if c == 32 then rest else c ∷ cs

-- A text that is all spaces goes, like a trailing space.
unfoldable pub trim_right : Memo → Memo
trim_right [] = []
trim_right (c ∷ cs) =
    let rest = trim_right cs in
    elim rest [ [] ↦ (if c == 32 then [] else c ∷ []) | d ∷ ds ↦ c ∷ d ∷ ds ]

unfoldable pub trim : Memo → Memo
trim text = trim_right (trim_left text)

-- `split` with one delimiter, from the part that `seen` has begun on; the parts are trimmed.
unfoldable pub split_from : ℕ → Memo → Memo → List Memo
split_from delim seen [] = trim seen ∷ []
split_from delim seen (c ∷ cs) =
    let at_delim = trim seen ∷ split_from delim [] cs in
    let inside = split_from delim (seen ++ c ∷ []) cs in if c == delim then at_delim else inside

unfoldable pub split : Memo → ℕ → List Memo
split text delim = split_from delim [] text

abbrev pub starts_with : Memo → Memo → Bool
starts_with text [] = true
starts_with [] (p ∷ ps) = false
starts_with (c ∷ cs) (p ∷ ps) = c == p && starts_with cs ps

-- "adsid:"
abbrev pub ads_prefix : Memo
ads_prefix = 97 ∷ 100 ∷ 115 ∷ 105 ∷ 100 ∷ 58 ∷ []

abbrev pub second_of_two : List Memo → Memo
second_of_two (a ∷ b ∷ []) = b
second_of_two _ = []

-- `_get_ads_id`
unfoldable pub get_ads_id : Memo → Memo
get_ads_id memo = if starts_with memo ads_prefix then second_of_two (split memo 58) else []
