-- ===== src/Xtoken/Preserve.antt =====
-- Every action of amax.xtoken that goes through keeps the invariant.
use amax_contracts.Common.{ℕ, ◌≡◌, refl, ◌∙◌, Bool, true, false, arith, ok, inl, inr}
use amax_contracts.Common.Int.{ℤ, pos, ◌+ℤ◌, ◌≤ℤ◌, ◌<ℤ◌, int_laws}
use amax_contracts.Chain.{Name, Asset, Symbol, IsSdk, Context, Memo}
use amax_contracts.Chain.Table.{Rows, total, modify_same-Rows, Rows-find}
use amax_contracts.Xtoken.{
  CurrencyStats, State, transfer, notifypayfee, split_fee, pays_fee, require_recipient,
}
use amax_contracts.Xtoken.Admin.{update_currency_field}
use amax_contracts.Xtoken.Balances.{
  AccountOk, held, counted, sub_balance-Rows, total-sub_balance, stats-sub_balance,
  add_balance-Rows, total-add_balance, stats-add_balance,
}
use amax_contracts.Xtoken.Invariant.{StatsOk, IsValid, supply_of-modify_same}
use amax_contracts.Xtoken.Fees.{split_fee-eq-ok}
use amax_contracts.Xtoken.Effects.{
  FeePaid, transfer-eq-ok, pay_fee-eq-ok, update_currency_field-eq-ok,
}

module _ (ctx : Context) (laws : IsSdk ctx.sdk) where
  -- What a step does to the accounts: it keeps them in order, and adds `n` to what is held of `c`.
  abbrev pub Adds : (ℕ → ℤ) → State → State → Type 0
  Adds n st st' =
      (Rows AccountOk st.accounts → Rows AccountOk st'.accounts)
      × ((c : ℕ) → total (held c) st'.accounts ≡ total (held c) st.accounts +ℤ n c)
      × (st'.stats ≡ st.stats)

  pub FeePaid-Adds :
      (row : CurrencyStats) (from to : Name) (fee : Asset) (memo : Memo) (payer : Name)
      (more st' : State)
      → pos 0 ≤ℤ fee.amount
      → FeePaid ctx laws row from to fee memo payer more st'
      → Adds (λ c. counted c fee) more st'
  FeePaid-Adds row from to fee memo payer more st' nonneg (inl (none_due, same)) =
      (λ rows. rw same rows, λ c. rw same (grind int_laws), rw same)
  FeePaid-Adds row from to fee memo payer more st' nonneg (inr (due, h)) =
      let (paid, a, final) = pay_fee-eq-ok ctx laws row from to fee memo payer more st' h in
      let receiver = row.fee_receiver in
      (
        λ rows.
            rw final
              (add_balance-Rows ctx laws row false receiver fee payer more paid a nonneg rows),
        λ c. rw final (total-add_balance ctx laws row false receiver fee payer more paid a c),
        rw final (stats-add_balance ctx laws row false receiver fee payer more paid a),
      )

  -- The two parts of a quantity are not negative.
  parts_nonneg :
      (row : CurrencyStats) (q got fee : Asset) (b : Bool)
      → split_fee ctx row q b ≡ ok (got, fee)
      → pos 0 <ℤ q.amount
      → pos 0 ≤ℤ row.min_fee_quantity.amount
      → (pos 0 ≤ℤ got.amount) × (pos 0 ≤ℤ fee.amount)
  parts_nonneg row q got fee true h positive least =
      let parts = split_fee-eq-ok ctx laws row q got fee true h in
      (grind (int_laws, parts.2, parts.4 refl), grind (int_laws, parts.4 refl))
  parts_nonneg row q got fee false h positive least =
      let parts = split_fee-eq-ok ctx laws row q got fee false h in
      (grind (int_laws, parts.2, parts.3 refl), grind (int_laws, parts.3 refl))

  pub transfer-IsValid :
      (from to : Name) (q : Asset) (memo : Memo) (st st' : State)
      → transfer ctx from to q memo st ≡ ok st'
      → IsValid st
      → IsValid st'
  transfer-IsValid from to q memo st st' h v =
      let (row, got, fee, payer, less, more, e, who, amounts, split, p, a, last) =
        transfer-eq-ok ctx laws from to q memo st st' h in
      let start = require_recipient to (require_recipient from st) in
      let code = q.symbol.code in
      let old = Rows-find StatsOk code code row st.stats v.stats_ok e in
      let nonneg = parts_nonneg row q got fee (pays_fee row to st code) split amounts.0 old.6 in
      let parts = split_fee-eq-ok ctx laws row q got fee (pays_fee row to st code) split in
      let (keep, sum, same) = FeePaid-Adds row from to fee memo payer more st' nonneg.1 last in
      let stats : st'.stats ≡ st.stats =
        same
        ∙ stats-add_balance ctx laws row true to got payer less more a
        ∙ stats-sub_balance ctx laws row true from q start less p in
      let less_rows = sub_balance-Rows ctx laws row true from q start less p v.accounts_ok in
      record {
        accounts_ok =
            keep (add_balance-Rows ctx laws row true to got payer less more a nonneg.0 less_rows);
        stats_ok = rw stats v.stats_ok;
        backed = λ c. rw stats (
            grind (
              int_laws,
              sum c,
              parts.0,
              parts.1,
              parts.2,
              total-add_balance ctx laws row true to got payer less more a c,
              total-sub_balance ctx laws row true from q start less p c,
              v.backed c,
            ));
      }

  pub notifypayfee-IsValid :
      (from to receiver : Name) (fee : Asset) (memo : Memo) (st st' : State)
      → notifypayfee ctx from to receiver fee memo st ≡ ok st'
      → IsValid st
      → IsValid st'
  unfolding notifypayfee
  notifypayfee-IsValid from to receiver fee memo st st' h v =
      let same : (st'.accounts ≡ st.accounts) × (st'.stats ≡ st.stats) = ground arith in
      record {
        accounts_ok = rw same.0 v.accounts_ok;
        stats_ok = rw same.1 v.stats_ok;
        backed = λ c. rw same.0 (rw same.1 (v.backed c));
      }

  -- A write to the settings of a token that leaves its supply alone.
  pub update_currency_field-IsValid :
      (sym : Symbol) (write : CurrencyStats → CurrencyStats) (st st' : State) (out : CurrencyStats)
      → update_currency_field ctx sym write st ≡ ok (st', out)
      → ((r : CurrencyStats) → (write r).supply ≡ r.supply)
      → ((r : CurrencyStats)
          → r.supply.symbol ≡ sym
          → StatsOk sym.code sym.code r
          → StatsOk sym.code sym.code (write r))
      → IsValid st
      → IsValid st'
  update_currency_field-IsValid sym write st st' out h supply fine v =
      let (row, e, same, auth, final, written) =
        update_currency_field-eq-ok ctx laws sym write st st' out h in
      let old = Rows-find StatsOk sym.code sym.code row st.stats v.stats_ok e in
      rw final (record {
        accounts_ok = v.accounts_ok;
        stats_ok =
            modify_same-Rows StatsOk sym.code sym.code (write row) st.stats v.stats_ok
              (fine row same old);
        backed = λ c. ground (
          arith,
          supply row,
          supply_of-modify_same c sym.code (write row) row st.stats e,
          v.backed c,
        );
      })
