-- ===== src/Xtoken/Effects.antt =====
-- What `transfer`, `issue`, `retire`, `close` and the writes to a token's settings have found, and
-- what they have written, when they go through.
use amax_contracts.Common.{
  ◌≡◌, ◌≢◌, ◌⊎◌, ◌∷◌, true, false, if◌then◌else◌, none, some, arith, ok, Option-cases, Result-cases,
  Bool-cases, inl, inr,
}
use amax_contracts.Common.Int.{pos, ltb_ℤ, ◌+ℤ◌, ◌-ℤ◌, ◌≤ℤ◌, ◌<ℤ◌}
use amax_contracts.Chain.{Name, Asset, Symbol, asset, IsSdk, Context, Memo}
use amax_contracts.Chain.Table.{find, modify_same, erase}
use amax_contracts.Xtoken.{
  Account, CurrencyStats, State, sub_balance, add_balance, create, issue, retire, transfer,
  split_fee, pays_fee, pay_fee, set_stats, set_accounts, require_recipient, is_account_frozen,
}
use amax_contracts.Xtoken.Admin.{close, update_currency_field}

module _ (ctx : Context) (laws : IsSdk ctx.sdk) where
  -- The last part of a transfer: the fee is paid if there is one.
  abbrev pub FeePaid : CurrencyStats → Name → Name → Asset → Memo → Name → State → State → Type 0
  FeePaid row from to fee memo payer more st' =
      ((fee.amount ≤ℤ pos 0) × (st' ≡ more))
      ⊎ ((pos 0 <ℤ fee.amount) × (pay_fee ctx row from to fee memo payer more ≡ ok st'))

  pub transfer-eq-ok :
      (from to : Name) (q : Asset) (memo : Memo) (st st' : State)
      → transfer ctx from to q memo st ≡ ok st'
      → (row : CurrencyStats) × (got : Asset) × (fee : Asset) × (payer : Name) × (less : State)
        × (more : State) × (find q.symbol.code q.symbol.code st.stats ≡ some row)
        × ((from ≢ to) × (ctx.has_auth from ≡ true) × (row.is_paused ≡ false))
        × ((pos 0 <ℤ q.amount)
            × (row.min_fee_quantity.amount <ℤ q.amount)
            × (ctx.sdk.asset_is_valid q ≡ true))
        × (split_fee ctx row q (pays_fee row to st q.symbol.code) ≡ ok (got, fee))
        × (sub_balance ctx row from q true (require_recipient to (require_recipient from st))
            ≡ ok less)
        × (add_balance ctx row to got payer true less ≡ ok more)
        × FeePaid row from to fee memo payer more st'
  unfolding transfer
  transfer-eq-ok from to q memo st st' h =
      elim (Option-cases (find q.symbol.code q.symbol.code st.stats)) [
        | inl e ↦ absurd (ground arith)
        | inr (row, e) ↦
            let l = laws.lt_lem row.min_fee_quantity q in
            elim (Result-cases (split_fee ctx row q (pays_fee row to st q.symbol.code))) [
              | inl ((got, fee), s) ↦
                  elim (Result-cases (
                    sub_balance ctx row from q true
                      (require_recipient to (require_recipient from st)))) [
                        | inl (less, p) ↦
                            let payer = if ctx.has_auth to then to else from in
                            elim (Result-cases (add_balance ctx row to got payer true less)) [
                              | inl (more, a) ↦ (
                                row,
                                got,
                                fee,
                                payer,
                                less,
                                more,
                                e,
                                (ground arith, ground arith, ground arith),
                                (ground arith, ground arith, ground arith),
                                s,
                                p,
                                a,
                                elim (Bool-cases (ltb_ℤ (pos 0) fee.amount)) [
                                  | inl due ↦ inr (ground arith, ground arith)
                                  | inr free ↦ inl (ground arith, ground arith)
                                ],
                              )
                              | inr (m, a) ↦ absurd (ground arith)
                            ]
                        | inr (m, p) ↦ absurd (ground arith)
                      ]
              | inr (m, s) ↦ absurd (ground arith)
            ]
      ]

  pub pay_fee-eq-ok :
      (row : CurrencyStats) (from to : Name) (fee : Asset) (memo : Memo) (payer : Name)
      (more st' : State)
      → pay_fee ctx row from to fee memo payer more ≡ ok st'
      → (paid : State) × (add_balance ctx row row.fee_receiver fee payer false more ≡ ok paid)
        × (st' ≡ record paid {
          sent =
              record {
                payer_from = from;
                payer_to = to;
                receiver = row.fee_receiver;
                fee = fee;
                memo = memo;
              }
              ∷ paid.sent;
        })
  unfolding pay_fee
  pay_fee-eq-ok row from to fee memo payer more st' h =
      elim (Result-cases (add_balance ctx row row.fee_receiver fee payer false more)) [
        | inl (paid, a) ↦ (paid, a, ground arith)
        | inr (m, a) ↦ absurd (ground arith)
      ]

  pub issue-eq-ok :
      (issuer : Name) (q : Asset) (memo : Memo) (st st' : State)
      → issue ctx issuer q memo st ≡ ok st'
      → (row : CurrencyStats) × (find q.symbol.code q.symbol.code st.stats ≡ some row)
        × (issuer ≡ row.issuer)
        × (ctx.has_auth issuer ≡ true)
        × (pos 0 <ℤ q.amount)
        × (q.symbol ≡ row.supply.symbol)
        × (q.amount ≤ℤ row.max_supply.amount -ℤ row.supply.amount)
        × (add_balance ctx
              (record row { supply = asset (row.supply.amount +ℤ q.amount) row.supply.symbol })
              row.issuer
              q
              row.issuer
              false
              (set_stats
                (modify_same q.symbol.code q.symbol.code
                  (record row { supply = asset (row.supply.amount +ℤ q.amount) row.supply.symbol })
                  st.stats)
                st)
            ≡ ok st')
  unfolding issue
  issue-eq-ok issuer q memo st st' h =
      elim (Option-cases (find q.symbol.code q.symbol.code st.stats)) [
        | inl e ↦ absurd (ground arith)
        | inr (row, e) ↦
            let s = laws.add_lem row.supply q in
            (
              row,
              e,
              ground arith,
              ground arith,
              ground arith,
              ground arith,
              ground arith,
              ground arith,
            )
      ]

  pub retire-eq-ok :
      (q : Asset) (memo : Memo) (st st' : State)
      → retire ctx q memo st ≡ ok st'
      → (row : CurrencyStats) × (find q.symbol.code q.symbol.code st.stats ≡ some row)
        × (ctx.has_auth row.issuer ≡ true)
        × (pos 0 <ℤ q.amount)
        × (q.symbol ≡ row.supply.symbol)
        × (sub_balance ctx
              (record row { supply = asset (row.supply.amount -ℤ q.amount) row.supply.symbol })
              row.issuer
              q
              false
              (set_stats
                (modify_same q.symbol.code q.symbol.code
                  (record row { supply = asset (row.supply.amount -ℤ q.amount) row.supply.symbol })
                  st.stats)
                st)
            ≡ ok st')
  unfolding retire
  retire-eq-ok q memo st st' h = elim (Option-cases (find q.symbol.code q.symbol.code st.stats)) [
    | inl e ↦ absurd (ground arith)
    | inr (row, e) ↦
        let s = laws.sub_lem row.supply q in
        (row, e, ground arith, ground arith, ground arith, ground arith)
  ]

  pub create-eq-ok :
      (issuer : Name) (m : Asset) (st st' : State)
      → create ctx issuer m st ≡ ok st'
      → (find m.symbol.code m.symbol.code st.stats ≡ none)
        × (ctx.has_auth ctx.self ≡ true)
        × (ctx.is_account issuer ≡ true)
        × (pos 0 <ℤ m.amount)
        × (ctx.sdk.asset_is_valid m ≡ true)
        × (st'
            ≡ set_stats
                (record {
                  scope = m.symbol.code;
                  key = m.symbol.code;
                  payer = ctx.self;
                  row = record {
                    supply = asset (pos 0) m.symbol;
                    max_supply = m;
                    issuer = issuer;
                    is_paused = false;
                    fee_receiver = 0;
                    fee_ratio = 0;
                    min_fee_quantity = asset (pos 0) m.symbol;
                  };
                }
                  ∷ st.stats)
                st)
  unfolding create
  create-eq-ok issuer m st st' h = ground arith

  pub close-eq-ok :
      (owner : Name) (sym : Symbol) (st st' : State)
      → close ctx owner sym st ≡ ok st'
      → (row : CurrencyStats) × (acct : Account) × (find sym.code sym.code st.stats ≡ some row)
        × (find owner sym.code st.accounts ≡ some acct)
        × ((ctx.has_auth owner ≡ true)
            × (row.is_paused ≡ false)
            × (is_account_frozen row owner acct ≡ false))
        × (acct.balance.amount ≡ pos 0)
        × (st' ≡ set_accounts (erase owner sym.code st.accounts) st)
  unfolding close
  close-eq-ok owner sym st st' h = elim (Option-cases (find sym.code sym.code st.stats)) [
    | inl e ↦ absurd (ground arith)
    | inr (row, e) ↦ elim (Option-cases (find owner sym.code st.accounts)) [
      | inl f ↦ absurd (ground arith)
      | inr (acct, f) ↦
          (row, acct, e, f, (ground arith, ground arith, ground arith), ground arith, ground arith)
    ]
  ]

  pub update_currency_field-eq-ok :
      (sym : Symbol) (write : CurrencyStats → CurrencyStats) (st st' : State) (out : CurrencyStats)
      → update_currency_field ctx sym write st ≡ ok (st', out)
      → (row : CurrencyStats) × (find sym.code sym.code st.stats ≡ some row)
        × (row.supply.symbol ≡ sym)
        × (ctx.has_auth row.issuer ≡ true)
        × (st' ≡ set_stats (modify_same sym.code sym.code (write row) st.stats) st)
        × (out ≡ write row)
  unfolding update_currency_field
  update_currency_field-eq-ok sym write st st' out h =
      elim (Option-cases (find sym.code sym.code st.stats)) [
        | inl e ↦ absurd (ground arith)
        | inr (row, e) ↦ (row, e, ground arith, ground arith, ground arith, ground arith)
      ]
