-- ===== src/Token/Preserve.antt =====
-- Every action of amax.token that goes through keeps the invariant.
use amax_contracts.Common.{◌≡◌, List, refl, ◌∙◌, Bool, arith, ok, inl, inr}
use amax_contracts.Common.Int.{◌+ℤ◌, ◌-ℤ◌, int_laws}
use amax_contracts.Chain.{Name, Asset, Symbol, asset, IsSdk, Memo}
use amax_contracts.Chain.Table.{
  modify_same, modify_same-Rows, Rows-find, erase-Rows, total-modify_same, total-erase,
}
use amax_contracts.Token.{
  Account, CurrencyStats, State, Env, create, issue, retire, slashblack, setissue, open_account,
  close, set_stats, transfer, blacklist, require_recipient,
}
use amax_contracts.Token.Balances.{
  AccountOk, held, sub_balance-Rows, total-sub_balance, stats-sub_balance, add_balance-Rows,
  total-add_balance, stats-add_balance,
}
use amax_contracts.Token.Invariant.{StatsOk, IsValid, supply_of-modify_same}
use amax_contracts.Token.Effects.{
  transfer-eq-ok, issue-eq-ok, retire-eq-ok, slashblack-eq-ok, create-eq-ok, setissue-eq-ok,
  open_account-eq-ok, close-eq-ok,
}

module _ (env : Env) (laws : IsSdk env.sdk) where
  pub transfer-IsValid :
      (from to : Name) (q : Asset) (memo : Memo) (st st' : State)
      → transfer env from to q memo st ≡ ok st'
      → IsValid st
      → IsValid st'
  transfer-IsValid from to q memo st st' h v =
      let (row, paid, payer, e, may, positive, same, p, a) =
        transfer-eq-ok env laws from to q memo st st' h in
      let start = require_recipient to (require_recipient from st) in
      let stats : st'.stats ≡ st.stats =
        stats-add_balance env laws to q payer paid st' a
        ∙ stats-sub_balance env laws from q start paid p in
      record {
        accounts_ok =
            add_balance-Rows env laws to q payer paid st' a (omega arith)
              (sub_balance-Rows env laws from q start paid p v.accounts_ok);
        stats_ok = rw stats v.stats_ok;
        backed = λ c. rw stats (
            grind (
              int_laws,
              total-add_balance env laws to q payer paid st' a c,
              total-sub_balance env laws from q start paid p c,
              v.backed c,
            ));
      }

  pub issue-IsValid :
      (issuer : Name) (q : Asset) (memo : Memo) (st st' : State)
      → issue env issuer q memo st ≡ ok st'
      → IsValid st
      → IsValid st'
  issue-IsValid issuer q memo st st' h v =
      let (row, e, who, auth, positive, same, fits, a) =
        issue-eq-ok env laws issuer q memo st st' h in
      let key = q.symbol.code in
      let new : CurrencyStats = record row {
        supply = asset (row.supply.amount +ℤ q.amount) row.supply.symbol;
      } in
      let start = set_stats (modify_same key key new st.stats) st in
      let stats : st'.stats ≡ start.stats =
        stats-add_balance env laws row.issuer q row.issuer start st' a in
      let old = Rows-find StatsOk key key row st.stats v.stats_ok e in
      record {
        accounts_ok =
            add_balance-Rows env laws row.issuer q row.issuer start st' a (omega arith)
              v.accounts_ok;
        stats_ok = rw stats (
            modify_same-Rows StatsOk key key new st.stats v.stats_ok
              (refl, old.1, old.2, omega int_laws, old.4));
        backed = λ c. rw stats (
            grind (
              int_laws,
              total-add_balance env laws row.issuer q row.issuer start st' a c,
              supply_of-modify_same c key new row st.stats e,
              v.backed c,
            ));
      }

  pub retire-IsValid :
      (q : Asset) (memo : Memo) (st st' : State)
      → retire env q memo st ≡ ok st'
      → IsValid st
      → IsValid st'
  retire-IsValid q memo st st' h v =
      let (row, e, auth, positive, same, a) = retire-eq-ok env laws q memo st st' h in
      let key = q.symbol.code in
      let new : CurrencyStats = record row {
        supply = asset (row.supply.amount -ℤ q.amount) row.supply.symbol;
      } in
      let start = set_stats (modify_same key key new st.stats) st in
      let stats : st'.stats ≡ start.stats = stats-sub_balance env laws row.issuer q start st' a in
      let old = Rows-find StatsOk key key row st.stats v.stats_ok e in
      record {
        accounts_ok = sub_balance-Rows env laws row.issuer q start st' a v.accounts_ok;
        stats_ok = rw stats (
            modify_same-Rows StatsOk key key new st.stats v.stats_ok
              (refl, old.1, old.2, omega int_laws, old.4));
        backed = λ c. rw stats (
            grind (
              int_laws,
              total-sub_balance env laws row.issuer q start st' a c,
              supply_of-modify_same c key new row st.stats e,
              v.backed c,
            ));
      }

  pub slashblack-IsValid :
      (target : Name) (q : Asset) (memo : Memo) (st st' : State)
      → slashblack env target q memo st ≡ ok st'
      → IsValid st
      → IsValid st'
  slashblack-IsValid target q memo st st' h v =
      let (was, row, f, e, listed, auth, positive, covered, same, same', final) =
        slashblack-eq-ok env laws target q memo st st' h in
      let key = q.symbol.code in
      let new : CurrencyStats = record row {
        supply = asset (row.supply.amount -ℤ q.amount) row.supply.symbol;
      } in
      let left : Account = record {
        balance = asset (was.balance.amount -ℤ q.amount) was.balance.symbol;
      } in
      let old = Rows-find StatsOk key key row st.stats v.stats_ok e in
      let before = Rows-find AccountOk target key was st.accounts v.accounts_ok f in
      rw final (record {
        accounts_ok =
            modify_same-Rows AccountOk target key left st.accounts v.accounts_ok
              (before.0, omega int_laws);
        stats_ok =
            modify_same-Rows StatsOk key key new st.stats v.stats_ok
              (refl, old.1, old.2, omega int_laws, old.4);
        backed = λ c. grind (
          int_laws,
          total-modify_same (held c) target key left was st.accounts f,
          supply_of-modify_same c key new row st.stats e,
          v.backed c,
        );
      })

  pub create-IsValid :
      (issuer : Name) (m : Asset) (st st' : State)
      → create env issuer m st ≡ ok st'
      → IsValid st
      → IsValid st'
  create-IsValid issuer m st st' h v =
      let (fresh, auth, exists, positive, fits, final) = create-eq-ok env laws issuer m st st' h in
      rw final (record {
        accounts_ok = v.accounts_ok;
        stats_ok =
            ((refl, refl, refl, omega arith, (laws.valid_range m fits).0), fresh, v.stats_ok);
        backed = λ c. ground (arith, v.backed c);
      })

  pub setissue-IsValid :
      (issuer : Name) (sym : Symbol) (next : Name) (st st' : State)
      → setissue env issuer sym next st ≡ ok st'
      → IsValid st
      → IsValid st'
  setissue-IsValid issuer sym next st st' h v =
      let (row, e, who, auth, other, final) = setissue-eq-ok env laws issuer sym next st st' h in
      let new : CurrencyStats = record row { issuer = next } in
      let old = Rows-find StatsOk sym.code sym.code row st.stats v.stats_ok e in
      rw final (record {
        accounts_ok = v.accounts_ok;
        stats_ok = modify_same-Rows StatsOk sym.code sym.code new st.stats v.stats_ok old;
        backed =
            λ c. ground (arith, supply_of-modify_same c sym.code new row st.stats e, v.backed c);
      })

  pub open_account-IsValid :
      (owner : Name) (sym : Symbol) (payer : Name) (st st' : State)
      → open_account env owner sym payer st ≡ ok st'
      → IsValid st
      → IsValid st'
  open_account-IsValid owner sym payer st st' h v =
      elim (open_account-eq-ok env laws owner sym payer st st' h).1 [
        | inl same ↦ rw same v
        | inr (fresh, final) ↦ rw final (record {
          accounts_ok = ((refl, omega arith), fresh, v.accounts_ok);
          stats_ok = v.stats_ok;
          backed = λ c. grind (int_laws, v.backed c);
        })
      ]

  pub close-IsValid :
      (owner : Name) (sym : Symbol) (st st' : State)
      → close env owner sym st ≡ ok st'
      → IsValid st
      → IsValid st'
  close-IsValid owner sym st st' h v =
      let (row, e, auth, empty, final) = close-eq-ok env laws owner sym st st' h in
      rw final (record {
        accounts_ok = erase-Rows AccountOk owner sym.code st.accounts v.accounts_ok;
        stats_ok = v.stats_ok;
        backed = λ c.
            grind (int_laws, total-erase (held c) owner sym.code row st.accounts e, v.backed c);
      })

  pub blacklist-IsValid :
      (targets : List Name) (to_add : Bool) (st st' : State)
      → blacklist env targets to_add st ≡ ok st'
      → IsValid st
      → IsValid st'
  unfolding blacklist
  blacklist-IsValid targets to_add st st' h v =
      let same : (st'.accounts ≡ st.accounts) × (st'.stats ≡ st.stats) = ground arith in
      record {
        accounts_ok = rw same.0 v.accounts_ok;
        stats_ok = rw same.1 v.stats_ok;
        backed = λ c. rw same.0 (rw same.1 (v.backed c));
      }
