-- ===== src/Xtoken/Settings.antt =====
-- The actions of amax.xtoken other than its transfers keep the invariant.
use amax_contracts.Common.{ℕ, ◌≡◌, ◌∷◌, refl, Bool, false, some, arith, ok, Option-cases, inl, inr}
use amax_contracts.Common.Int.{pos, ◌+ℤ◌, ◌-ℤ◌, int_laws}
use amax_contracts.Chain.{Name, Asset, Symbol, asset, IsSdk, Context, Memo}
use amax_contracts.Chain.Table.{
  find, modify, modify_same, modify-Rows, modify_same-Rows, Rows-find, erase-Rows, total-modify,
  total-erase,
}
use amax_contracts.Xtoken.{
  Account, CurrencyStats, State, create, issue, retire, set_stats, set_accounts,
}
use amax_contracts.Xtoken.Admin.{open_account, opens, close, feeexempt, freezeacct}
use amax_contracts.Xtoken.Balances.{
  AccountOk, held, sub_balance-Rows, total-sub_balance, stats-sub_balance, add_balance-Rows,
  total-add_balance, stats-add_balance,
}
use amax_contracts.Xtoken.Invariant.{StatsOk, IsValid, supply_of-modify_same}
use amax_contracts.Xtoken.Effects.{issue-eq-ok, retire-eq-ok, create-eq-ok, close-eq-ok}

module _ (ctx : Context) (laws : IsSdk ctx.sdk) where
  pub issue-IsValid :
      (issuer : Name) (q : Asset) (memo : Memo) (st st' : State)
      → issue ctx issuer q memo st ≡ ok st'
      → IsValid st
      → IsValid st'
  issue-IsValid issuer q memo st st' h v =
      let (row, e, who, auth, positive, same, fits, a) =
        issue-eq-ok ctx laws issuer q memo st st' h in
      let key = q.symbol.code in
      let new : CurrencyStats = record row {
        supply = asset (row.supply.amount +ℤ q.amount) row.supply.symbol;
      } in
      let start = set_stats (modify_same key key new st.stats) st in
      let stats : st'.stats ≡ start.stats =
        stats-add_balance ctx laws new false row.issuer q row.issuer start st' a in
      let old = Rows-find StatsOk key key row st.stats v.stats_ok e in
      record {
        accounts_ok =
            add_balance-Rows ctx laws new false row.issuer q row.issuer start st' a (omega arith)
              v.accounts_ok;
        stats_ok = rw stats (
            modify_same-Rows StatsOk key key new st.stats v.stats_ok
              (refl, old.1, old.2, omega int_laws, old.4, old.5, old.6, old.7));
        backed = λ c. rw stats (
            grind (
              int_laws,
              total-add_balance ctx laws new false row.issuer q row.issuer start st' a c,
              supply_of-modify_same c key new row st.stats e,
              v.backed c,
            ));
      }

  pub retire-IsValid :
      (q : Asset) (memo : Memo) (st st' : State)
      → retire ctx q memo st ≡ ok st'
      → IsValid st
      → IsValid st'
  retire-IsValid q memo st st' h v =
      let (row, e, auth, positive, same, a) = retire-eq-ok ctx laws q memo st st' h in
      let key = q.symbol.code in
      let new : CurrencyStats = record row {
        supply = asset (row.supply.amount -ℤ q.amount) row.supply.symbol;
      } in
      let start = set_stats (modify_same key key new st.stats) st in
      let stats : st'.stats ≡ start.stats =
        stats-sub_balance ctx laws new false row.issuer q start st' a in
      let old = Rows-find StatsOk key key row st.stats v.stats_ok e in
      record {
        accounts_ok = sub_balance-Rows ctx laws new false row.issuer q start st' a v.accounts_ok;
        stats_ok = rw stats (
            modify_same-Rows StatsOk key key new st.stats v.stats_ok
              (refl, old.1, old.2, omega int_laws, old.4, old.5, old.6, old.7));
        backed = λ c. rw stats (
            grind (
              int_laws,
              total-sub_balance ctx laws new false row.issuer q start st' a c,
              supply_of-modify_same c key new row st.stats e,
              v.backed c,
            ));
      }

  pub create-IsValid :
      (issuer : Name) (m : Asset) (st st' : State)
      → create ctx issuer m st ≡ ok st'
      → IsValid st
      → IsValid st'
  create-IsValid issuer m st st' h v =
      let (fresh, auth, exists, positive, fits, final) = create-eq-ok ctx laws issuer m st st' h in
      rw final (record {
        accounts_ok = v.accounts_ok;
        stats_ok = (
          (
            refl,
            refl,
            refl,
            omega arith,
            (laws.valid_range m fits).0,
            omega arith,
            omega arith,
            refl,
          ),
          fresh,
          v.stats_ok,
        );
        backed = λ c. ground (arith, v.backed c);
      })

  pub open_account-IsValid :
      (owner : Name) (sym : Symbol) (payer : Name) (st st' : State)
      → open_account owner sym payer st ≡ ok st'
      → IsValid st
      → IsValid st'
  unfolding open_account
  open_account-IsValid owner sym payer st st' h v =
      elim (Option-cases (find owner sym.code st.accounts)) [
        | inl e ↦
            let row : Account = record {
              balance = asset (pos 0) sym;
              is_frozen = false;
              is_fee_exempt = false;
            } in
            let final : st'
                ≡ set_accounts
                    (record { scope = owner; key = sym.code; payer = payer; row = row }
                      ∷ st.accounts)
                    st =
              ground arith in
            rw final (record {
              accounts_ok = ((refl, omega arith), e, v.accounts_ok);
              stats_ok = v.stats_ok;
              backed = λ c. grind (int_laws, v.backed c);
            })
        | inr (row, e) ↦ let final : st' ≡ st = ground arith in rw final v
      ]

  pub opens-IsValid :
      (owner : Name) (sym : Symbol) (payer : Name) (st st' : State)
      → opens ctx owner sym payer st ≡ ok st'
      → IsValid st
      → IsValid st'
  unfolding opens
  opens-IsValid owner sym payer st st' h v =
      open_account-IsValid owner sym payer st st' (ground arith) v

  pub close-IsValid :
      (owner : Name) (sym : Symbol) (st st' : State)
      → close ctx owner sym st ≡ ok st'
      → IsValid st
      → IsValid st'
  close-IsValid owner sym st st' h v =
      let (row, acct, e, f, permitted, empty, final) = close-eq-ok ctx laws owner sym st st' h in
      rw final (record {
        accounts_ok = erase-Rows AccountOk owner sym.code st.accounts v.accounts_ok;
        stats_ok = v.stats_ok;
        backed = λ c.
            grind (int_laws, total-erase (held c) owner sym.code acct st.accounts f, v.backed c);
      })

  -- A flag of an account is set: its balance stays.
  flag-IsValid :
      (owner payer code : ℕ) (acct new : Account) (st : State)
      → find owner code st.accounts ≡ some acct
      → new.balance ≡ acct.balance
      → IsValid st
      → IsValid (set_accounts (modify owner code payer new st.accounts) st)
  flag-IsValid owner payer code acct new st e same v =
      let old = Rows-find AccountOk owner code acct st.accounts v.accounts_ok e in
      record {
        accounts_ok =
            modify-Rows AccountOk owner code payer new st.accounts v.accounts_ok (ground arith);
        stats_ok = v.stats_ok;
        backed = λ c.
            grind
              (int_laws, total-modify (held c) owner code payer new acct st.accounts e, v.backed c);
      }

  pub feeexempt-IsValid :
      (sym : Symbol) (account : Name) (b : Bool) (st st' : State)
      → feeexempt ctx sym account b st ≡ ok st'
      → IsValid st
      → IsValid st'
  unfolding feeexempt
  feeexempt-IsValid sym account b st st' h v =
      elim (Option-cases (find sym.code sym.code st.stats)) [
        | inl e ↦ absurd (ground arith)
        | inr (row, e) ↦ elim (Option-cases (find account sym.code st.accounts)) [
          | inl f ↦ absurd (ground arith)
          | inr (acct, f) ↦
              let new : Account = record acct { is_fee_exempt = b } in
              let final : st'
                  ≡ set_accounts (modify account sym.code row.issuer new st.accounts) st =
                ground arith in
              rw final (flag-IsValid account row.issuer sym.code acct new st f refl v)
        ]
      ]

  pub freezeacct-IsValid :
      (sym : Symbol) (account : Name) (b : Bool) (st st' : State)
      → freezeacct ctx sym account b st ≡ ok st'
      → IsValid st
      → IsValid st'
  unfolding freezeacct
  freezeacct-IsValid sym account b st st' h v =
      elim (Option-cases (find sym.code sym.code st.stats)) [
        | inl e ↦ absurd (ground arith)
        | inr (row, e) ↦ elim (Option-cases (find account sym.code st.accounts)) [
          | inl f ↦ absurd (ground arith)
          | inr (acct, f) ↦
              let new : Account = record acct { is_frozen = b } in
              let final : st'
                  ≡ set_accounts (modify account sym.code row.issuer new st.accounts) st =
                ground arith in
              rw final (flag-IsValid account row.issuer sym.code acct new st f refl v)
        ]
      ]
