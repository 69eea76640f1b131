-- ===== src/Token/Blacklists.antt =====
-- `blacklist` of amax.token.cpp: its two loops add and remove exactly the names they are given.
use amax_contracts.Common.{
  ℕ, ◌≡◌, ◌≤◌, List, [], ◌∷◌, arith, ok, Bool, true, false, not, length, ◌||◌, ◌&&◌, ◌==◌,
  if◌then◌else◌, Bool-cases, inl, inr,
}
use amax_contracts.Chain.{Name}
use amax_contracts.Chain.Names
use amax_contracts.Chain.Table.{
  Table, contains, erase, Rows, find-erase_ne, find-erase_self, erase-Rows,
}
use amax_contracts.Token.{State, Env, Blacklisted, add_all, remove_all, blacklist}

abbrev pub elem : Name → List Name → Bool
elem x [] = false
elem x (y ∷ ys) = x == y || elem x ys

abbrev pub Listed : ℕ → ℕ → Blacklisted → Type 0
Listed s k b = (b.account ≡ k)

contains-add_all :
    (self x : Name) (targets : List Name) (rows rows' : Table Blacklisted)
    → add_all self targets rows ≡ ok rows'
    → contains self x rows' ≡ (contains self x rows || elem x targets)
unfolding add_all
contains-add_all self x [] rows rows' h = ground arith
contains-add_all self x (y ∷ ys) rows rows' h = elim (Bool-cases (contains self y rows)) [
  | inl there ↦ ground (arith, contains-add_all self x ys rows rows')
  | inr missing ↦ ground (
    arith,
    contains-add_all self x ys
        (record { scope = self; key = y; payer = self; row = record { account = y } } ∷ rows) rows',
  )
]

contains-remove_all :
    (self x : Name) (targets : List Name) (rows : Table Blacklisted)
    → Rows Listed rows
    → contains self x (remove_all self targets rows)
      ≡ (contains self x rows && not (elem x targets))
unfolding remove_all
contains-remove_all self x [] rows v = ground arith
contains-remove_all self x (y ∷ ys) rows v = ground (
  arith,
  contains-remove_all self x ys (erase self y rows) (erase-Rows Listed self y rows v),
  contains-remove_all self x ys rows v,
  find-erase_ne self y self x rows,
  find-erase_self Listed self y rows v,
)

-- After `blacklist` with `to_add` an account is listed exactly if it was or is among the targets;
-- without it, exactly if it was and is not. At most 50 targets go through, from a permitted signer.
pub contains-blacklist :
    (env : Env) (targets : List Name) (to_add : Bool) (st st' : State)
    → Rows Listed st.blacklist
    → blacklist env targets to_add st ≡ ok st'
    → ((x : Name)
        → contains env.self x st'.blacklist ≡ (
            if to_add
            then contains env.self x st.blacklist || elem x targets
            else contains env.self x st.blacklist && not (elem x targets)))
      × (length targets ≤ 50)
      × ((env.has_auth env.self || env.has_auth Names.armoniaadmin) ≡ true)
      × (st'.accounts ≡ st.accounts)
      × (st'.stats ≡ st.stats)
unfolding blacklist
contains-blacklist env targets true st st' v h = (
  λ x. ground (arith, contains-add_all env.self x targets st.blacklist st'.blacklist),
  ground arith,
  ground arith,
  ground arith,
  ground arith,
)
contains-blacklist env targets false st st' v h = (
  λ x. ground (arith, contains-remove_all env.self x targets st.blacklist v),
  ground arith,
  ground arith,
  ground arith,
  ground arith,
)
