-- ===== src/Token/Transfers.antt =====
-- `transfer` of amax.token.cpp: what it moves, when it goes through, and when it is refused.
use amax_contracts.Common.{
  ℕ, ◌≡◌, ◌≢◌, inl, inr, ◌∙◌, none, some, [], ◌∷◌, ◌≤◌, arith, ok, Bool, Option, true, false,
  length, ◌||◌, ◌&&◌, ◌==◌, if◌then◌else◌, Option-cases,
}
use amax_contracts.Common.Int.{ℤ, pos, ◌+ℤ◌, ◌-ℤ◌, ◌≤ℤ◌, ◌<ℤ◌, int_laws}
use amax_contracts.Chain.{Name, Asset, Symbol, asset, IsSdk, InRange, Memo}
use amax_contracts.Chain.Names
use amax_contracts.Chain.Table.{
  Table, Rows, Rows-find, find, modify, modify_same, find-modify, find-modify_same, total,
}
use amax_contracts.Token.{
  Account, CurrencyStats, State, Env, transfer, may_send, sub_balance, add_balance, set_accounts,
  require_recipient, is_blacklisted,
}
use amax_contracts.Token.Balances.{AccountOk, held, sub_balance-eq-ok, add_balance-eq-ok}
use amax_contracts.Token.Invariant.{IsValid, supply_bounds, StatsOk, le-total-held}
use amax_contracts.Token.Effects.{transfer-eq-ok}

-- What an owner has of a code: nothing where there is no row.
abbrev pub amount_of : Name → ℕ → Table Account → ℤ
amount_of owner code t = elim (find owner code t) [ none ↦ pos 0 | some a ↦ a.balance.amount ]

abbrev pub at : Name → ℕ → Name → ℕ → Bool
at owner code o c = o == owner && c == code

module _ (env : Env) (laws : IsSdk env.sdk) where
  pub amount_of-sub_balance :
      (owner : Name) (v : Asset) (st st' : State)
      → sub_balance env owner v st ≡ ok st'
      → (o c : ℕ)
      → amount_of o c st'.accounts ≡ (
          if at owner v.symbol.code o c
          then amount_of o c st.accounts -ℤ v.amount
          else amount_of o c st.accounts)
  amount_of-sub_balance owner v st st' h o c =
      let (row, e, le, same, final) = sub_balance-eq-ok env laws owner v st st' h in
      let new : Account = record {
        balance = asset (row.balance.amount -ℤ v.amount) row.balance.symbol;
      } in
      rw final (ground (arith, find-modify owner v.symbol.code owner o c new row st.accounts e))

  pub amount_of-add_balance :
      (owner : Name) (v : Asset) (payer : Name) (st st' : State)
      → add_balance env owner v payer st ≡ ok st'
      → (o c : ℕ)
      → amount_of o c st'.accounts ≡ (
          if at owner v.symbol.code o c
          then amount_of o c st.accounts +ℤ v.amount
          else amount_of o c st.accounts)
  amount_of-add_balance owner v payer st st' h o c =
      elim (add_balance-eq-ok env laws owner v payer st st' h) [
        | inl (e, final) ↦ rw final (grind (int_laws, e))
        | inr (row, e, same, final) ↦
            let new : Account = record {
              balance = asset (row.balance.amount +ℤ v.amount) row.balance.symbol;
            } in
            rw final
              (ground (arith, find-modify_same owner v.symbol.code o c new row st.accounts e))
      ]

  frame-sub_balance :
      (owner : Name) (v : Asset) (st st' : State)
      → sub_balance env owner v st ≡ ok st'
      → (st'.stats ≡ st.stats) × (st'.blacklist ≡ st.blacklist) × (st'.recipients ≡ st.recipients)
  frame-sub_balance owner v st st' h =
      let (row, e, le, same, final) = sub_balance-eq-ok env laws owner v st st' h in ground arith

  frame-add_balance :
      (owner : Name) (v : Asset) (payer : Name) (st st' : State)
      → add_balance env owner v payer st ≡ ok st'
      → (st'.stats ≡ st.stats) × (st'.blacklist ≡ st.blacklist) × (st'.recipients ≡ st.recipients)
  frame-add_balance owner v payer st st' h =
      elim (add_balance-eq-ok env laws owner v payer st st' h) [
        | inl (e, final) ↦ ground arith
        | inr (row, e, same, final) ↦ ground arith
      ]

  -- A transfer that goes through moves exactly its quantity from the sender to another account. No
  -- other balance, no supply and no blacklist changes, and both accounts are notified.
  pub transfer_moves :
      (from to : Name) (q : Asset) (memo : Memo) (st st' : State)
      → transfer env from to q memo st ≡ ok st'
      → (from ≢ to)
        × (pos 0 <ℤ q.amount)
        × (q.amount ≤ℤ amount_of from q.symbol.code st.accounts)
        × (amount_of from q.symbol.code st'.accounts
            ≡ amount_of from q.symbol.code st.accounts -ℤ q.amount)
        × (amount_of to q.symbol.code st'.accounts
            ≡ amount_of to q.symbol.code st.accounts +ℤ q.amount)
        × ((o c : ℕ)
            → (at from q.symbol.code o c || at to q.symbol.code o c) ≡ false
            → amount_of o c st'.accounts ≡ amount_of o c st.accounts)
        × (st'.stats ≡ st.stats)
        × (st'.blacklist ≡ st.blacklist)
        × (st'.recipients ≡ to ∷ from ∷ st.recipients)
  unfolding may_send
  transfer_moves from to q memo st st' h =
      let (row, paid, payer, e, may, positive, same, p, a) =
        transfer-eq-ok env laws from to q memo st st' h in
      let start = require_recipient to (require_recipient from st) in
      let code = q.symbol.code in
      let ne : from ≢ to = ground arith in
      let (was, f, le, sym, final) = sub_balance-eq-ok env laws from q start paid p in
      let sub = amount_of-sub_balance from q start paid p in
      let add = amount_of-add_balance to q payer paid st' a in
      let fs = frame-sub_balance from q start paid p in
      let fa = frame-add_balance to q payer paid st' a in
      (
        ne,
        positive,
        ground arith,
        ground (arith, sub from code, add from code),
        ground (arith, sub to code, add to code),
        λ o c other. ground (arith, sub o c, add o c),
        fa.0 ∙ fs.0,
        fa.1 ∙ fs.1,
        fa.2 ∙ fs.2,
      )

  -- Whoever loses by a transfer has signed it; an account on a blacklist can send to `oooo` alone,
  -- and `aaaaaaaaaaaa` to `amax` alone.
  pub transfer_permitted :
      (from to : Name) (q : Asset) (memo : Memo) (st st' : State)
      → transfer env from to q memo st ≡ ok st'
      → (env.has_auth from ≡ true)
        × (env.is_account to ≡ true)
        × (is_blacklisted env st from Names.amax_token ≡ true → to ≡ Names.oooo)
        × (from ≡ Names.aaaaaaaaaaaa → to ≡ Names.amax)
  unfolding may_send
  transfer_permitted from to q memo st st' h =
      let (row, paid, payer, e, may, positive, same, p, a) =
        transfer-eq-ok env laws from to q memo st st' h in
      (ground arith, ground arith, λ listed. ground arith, λ special. ground arith)

le-total-held_pair :
    (c s s' : ℕ) (t : Table Account) (a b : Account)
    → s ≢ s'
    → Rows AccountOk t
    → find s c t ≡ some a
    → find s' c t ≡ some b
    → a.balance.amount +ℤ b.balance.amount ≤ℤ total (held c) t
le-total-held_pair c s s' [] a b ne h e f = cc
le-total-held_pair c s s' (x ∷ t) a b ne h e f = grind (
  int_laws,
  le-total-held_pair c s s' t a b ne h.2,
  le-total-held c s t a h.2,
  le-total-held c s' t b h.2,
)

-- The row of an account, if it has one, is in the symbol that is sent.
abbrev pub InSymbol : Symbol → Option Account → Type 0
InSymbol sym none = Unit
InSymbol sym (some a) = a.balance.symbol ≡ sym

module _ (env : Env) (laws : IsSdk env.sdk) where
  sub_balance_total :
      (owner : Name) (v : Asset) (st : State) (row : Account)
      → find owner v.symbol.code st.accounts ≡ some row
      → v.symbol ≡ row.balance.symbol
      → v.amount ≤ℤ row.balance.amount
      → InRange (row.balance.amount -ℤ v.amount)
      → sub_balance env owner v st
        ≡ ok (
            set_accounts
              (modify owner v.symbol.code owner
                (record { balance = asset (row.balance.amount -ℤ v.amount) row.balance.symbol })
                st.accounts)
              st)
  unfolding sub_balance
  sub_balance_total owner v st row e same le fits =
      let s = laws.sub_lem row.balance v in ground arith

  add_balance_total :
      (owner : Name) (v : Asset) (payer : Name) (st : State)
      → InSymbol v.symbol (find owner v.symbol.code st.accounts)
      → InRange (amount_of owner v.symbol.code st.accounts +ℤ v.amount)
      → (st' : State) × (add_balance env owner v payer st ≡ ok st')
  unfolding add_balance
  add_balance_total owner v payer st same fits =
      elim (Option-cases (find owner v.symbol.code st.accounts)) [
        | inl e ↦ (
          set_accounts
              (record {
                scope = owner;
                key = v.symbol.code;
                payer = payer;
                row = record { balance = v };
              }
                ∷ st.accounts)
              st,
          ground arith,
        )
        | inr (row, e) ↦
            let s = laws.add_lem row.balance v in
            (
              set_accounts
                  (modify_same owner v.symbol.code
                    (record { balance = asset (row.balance.amount +ℤ v.amount) row.balance.symbol })
                    st.accounts)
                  st,
              ground arith,
            )
      ]

  -- What another account has, with a part of this balance, is still no more than the supply.
  receivable :
      (st : State) (code from to : Name) (n : ℤ) (row : CurrencyStats) (was : Account)
      → IsValid st
      → from ≢ to
      → find code code st.stats ≡ some row
      → find from code st.accounts ≡ some was
      → pos 0 <ℤ n
      → n ≤ℤ was.balance.amount
      → InRange (amount_of to code st.accounts +ℤ n)
  receivable st code from to n row was v ne e f positive enough =
      let cap = Rows-find StatsOk code code row st.stats v.stats_ok e in
      let all = v.backed code in
      elim (Option-cases (find to code st.accounts)) [
        | inl g ↦
            let one = le-total-held code from st.accounts was v.accounts_ok f in
            (grind int_laws, grind int_laws)
        | inr (b, g) ↦
            let two = le-total-held_pair code from to st.accounts was b ne v.accounts_ok f g in
            let nonneg = Rows-find AccountOk to code b st.accounts v.accounts_ok g in
            (grind int_laws, grind int_laws)
      ]

  -- In a valid state a transfer whose guards hold goes through: neither the subtraction nor the
  -- addition of balances can leave the range of an asset. The guards: the two accounts may transfer,
  -- the token exists in that symbol, the quantity is valid and positive, the memo fits, the sender
  -- has a row with enough, and neither account's row has the code under another precision.
  pub transfer_total :
      (from to : Name) (q : Asset) (memo : Memo) (st : State) (row : CurrencyStats) (was : Account)
      → IsValid st
      → may_send env from to st ≡ ok tt
      → find q.symbol.code q.symbol.code st.stats ≡ some row
      → env.sdk.asset_is_valid q ≡ true
      → pos 0 <ℤ q.amount
      → q.symbol ≡ row.supply.symbol
      → length memo ≤ 256
      → find from q.symbol.code st.accounts ≡ some was
      → was.balance.symbol ≡ q.symbol
      → q.amount ≤ℤ was.balance.amount
      → InSymbol q.symbol (find to q.symbol.code st.accounts)
      → (st' : State) × (transfer env from to q memo st ≡ ok st')
  unfolding transfer may_send
  transfer_total from to q memo st row was v may e valid positive same short f sym enough insym =
      let code = q.symbol.code in
      let start = require_recipient to (require_recipient from st) in
      let left : Account = record {
        balance = asset (was.balance.amount -ℤ q.amount) was.balance.symbol;
      } in
      let paid = set_accounts (modify from code from left start.accounts) start in
      let payer = if env.has_auth to then to else from in
      let ne : from ≢ to = ground arith in
      let stays = find-modify from code from to code left was st.accounts f in
      let bound = supply_bounds st code from was v f in
      let cap = Rows-find StatsOk code code row st.stats v.stats_ok e in
      let sub =
        sub_balance_total from q start was f (ground arith) enough
          (grind int_laws, omega int_laws) in
      let space = receivable st code from to q.amount row was v ne e f positive enough in
      let (st', add) = add_balance_total to q payer paid (ground arith) (ground arith) in
      (st', ground arith)
