-- ===== src/System/Elect/Changes.antt =====
-- Changes of the schedule of producers, in
-- src_system/contracts/amax.system/include/amax.system/producer_change.hpp, and how they are put
-- together by `producer_change_helper` of src_system/contracts/amax.system/src/voting.cpp. A
-- `std::map` is a list of entries by rising keys.
pub mod Merging
use amax_contracts.Common.{
  ℕ, ◌+◌, Bool, true, false, ◌==◌, ltb, if◌then◌else◌, Option, none, some, List, [], ◌∷◌, Result,
  ok, err, ◌>>=◌, ◌>>◌, check,
}
use amax_contracts.Chain.{Name}
use amax_contracts.System.Elect.{ElectedInfo}

-- `producer_change_record`; the authority of a deletion is not set.
pub data Change (A : Type 0) : Type 0 where
  adds : A → Change A
  modifies : A → Change A
  deletes : Change A

pub record Entry (A : Type 0) : Type 0 where
  pub name : Name
  pub change : Change A

-- `struct producer_change_map`
pub record ChangeMap (A : Type 0) : Type 0 where
  pub clear_existed : Bool
  pub producer_count : ℕ
  pub changes : List (Entry A)

-- `struct proposed_producer_changes`
pub record ProposedChanges (A : Type 0) : Type 0 where
  pub main_changes : ChangeMap A
  pub backup_changes : ChangeMap A

module _ {A : Type 0} where
  abbrev pub lookup : Name → List (Entry A) → Option (Change A)
  lookup n [] = none
  lookup n (e ∷ l) = if n == e.name then some e.change else lookup n l

  -- An entry that is there gets another value, a new one comes where its key belongs.
  abbrev pub assign : Name → Change A → List (Entry A) → List (Entry A)
  assign n c [] = record { name = n; change = c } ∷ []
  assign n c (e ∷ l) =
      if n == e.name
      then record { name = n; change = c } ∷ l
      else if ltb n e.name
      then record { name = n; change = c } ∷ e ∷ l
      else e ∷ assign n c l

  abbrev pub erase : Name → List (Entry A) → List (Entry A)
  erase n [] = []
  erase n (e ∷ l) = if n == e.name then erase n l else e ∷ erase n l

  abbrev pub add_over : Name → A → List (Entry A) → Option (Change A) → Result (List (Entry A))
  add_over n a l none = ok (assign n (adds a) l)
  add_over n a l (some deletes) = ok (assign n (modifies a) l)
  add_over n a l (some (adds _)) = err "the old change type can not be 0 when add prod change"
  add_over n a l (some (modifies _)) = err "the old change type can not be 1 when add prod change"

  abbrev pub modify_over : Name → A → List (Entry A) → Option (Change A) → Result (List (Entry A))
  modify_over n a l none = ok (assign n (modifies a) l)
  modify_over n a l (some (adds _)) = ok (assign n (adds a) l)
  modify_over n a l (some (modifies _)) = ok (assign n (modifies a) l)
  modify_over n a l (some deletes) = err "the old change type can not be 2 when modify prod change"

  abbrev pub del_over : Name → List (Entry A) → Option (Change A) → Result (List (Entry A))
  del_over n l none = ok (assign n deletes l)
  del_over n l (some (adds _)) = ok (erase n l)
  del_over n l (some (modifies _)) = ok (assign n deletes l)
  del_over n l (some deletes) = err "the old change type can not be 2 when del prod change"

  -- `producer_change_helper::add`, `modify` and `del`
  unfoldable pub add : List (Entry A) → Name → A → Result (List (Entry A))
  add changes n a = add_over n a changes (lookup n changes)

  unfoldable pub modify : List (Entry A) → Name → A → Result (List (Entry A))
  modify changes n a = modify_over n a changes (lookup n changes)

  unfoldable pub del : List (Entry A) → Name → Result (List (Entry A))
  del changes n = del_over n changes (lookup n changes)

  -- What is done for an entry of the source of a merge.
  unfoldable pub visit : List (Entry A) → Name → Change A → Result (List (Entry A))
  visit dest n (adds a) = add dest n a
  visit dest n (modifies a) = modify dest n a
  visit dest n deletes = del dest n

  unfoldable pub visit_all : List (Entry A) → List (Entry A) → Result (List (Entry A))
  visit_all dest [] = ok dest
  visit_all dest (e ∷ src) = do next ← visit dest e.name e.change; visit_all next src

  -- `producer_change_helper::merge` of a source into a destination.
  unfoldable pub merge_map : ChangeMap A → ChangeMap A → Result (ChangeMap A)
  merge_map src dest = if src.clear_existed then ok src else do
    changes ← visit_all dest.changes src.changes
    ok (record dest { changes = changes; producer_count = src.producer_count })

  unfoldable pub merge : ProposedChanges A → ProposedChanges A → Result (ProposedChanges A)
  merge src dest = do
    main ← merge_map src.main_changes dest.main_changes
    backup ← merge_map src.backup_changes dest.backup_changes
    ok (record { main_changes = main; backup_changes = backup })
