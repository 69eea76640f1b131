-- ===== src/Token/Tests.antt =====
-- The token contract at concrete inputs.
use amax_contracts.Common.{
  ℕ, ◌≡◌, ◌≢◌, ◌≤◌, refl, some, List, [], ◌∷◌, arith, ok, err, true, false, length, ◌||◌, ◌==◌,
}
use amax_contracts.Common.Int.{pos, ◌+ℤ◌, ◌-ℤ◌, ◌≤ℤ◌, ◌<ℤ◌}
use amax_contracts.Chain.{Name, asset, Symbol, max_amount}
use amax_contracts.Chain.Names
use amax_contracts.Chain.Sample.{signed_by, sdk-IsSdk}
use amax_contracts.Chain.Table.{find, contains, total}
use amax_contracts.Token.{
  Account, Blacklisted, CurrencyStats, State, Env, creates, issues, transfers, apply, transfer,
  create, issue, blacklist, sub_balance, add_balance, may_send, is_blacklisted,
  degov_is_blacklisted, add_all,
}
use amax_contracts.Token.Balances.{held}
use amax_contracts.Token.Invariant.{supply_of}
use amax_contracts.Token.Actions.{Reach, start, next, Reach-supply, Reach-IsValid}
use amax_contracts.Token.Transfers.{
  amount_of, at, transfer_moves, transfer_permitted, transfer_total,
}
use amax_contracts.Token.Blacklists.{contains-blacklist, elem}
use amax_contracts.Token.Authority.{fall_permitted, Permits}

abbrev sym : Symbol
sym = record { code = 0x58414d41; precision = 8 }

-- Signed by the contract and by the accounts 1 and 2.
abbrev env : Env
env = record {
  chain = signed_by Names.amax_token (Names.amax_token ∷ 1 ∷ 2 ∷ []) 0;
  degov_blacklist = λ n. n == 7;
  foreign_blacklist = λ c n. false;
}

abbrev supplied : State
supplied = record {
  accounts =
      record {
        scope = 1;
        key = 0x58414d41;
        payer = 1;
        row = record { balance = asset (pos 500) sym };
      }
      ∷ [];
  stats =
      record {
        scope = 0x58414d41;
        key = 0x58414d41;
        payer = Names.amax_token;
        row = record {
          supply = asset (pos 500) sym;
          max_supply = asset (pos 1000) sym;
          issuer = 1;
        };
      }
      ∷ [];
  blacklist = [];
  recipients = [];
}

abbrev shared : State
shared = record {
  accounts =
      record {
        scope = 2;
        key = 0x58414d41;
        payer = 2;
        row = record { balance = asset (pos 20) sym };
      }
      ∷ record {
        scope = 1;
        key = 0x58414d41;
        payer = 1;
        row = record { balance = asset (pos 480) sym };
      }
      ∷ [];
  stats = supplied.stats;
  blacklist = [];
  recipients = 2 ∷ 1 ∷ [];
}

transfer-supplied : transfer env 1 2 (asset (pos 20) sym) [] supplied ≡ ok shared
unfolding transfer may_send sub_balance add_balance is_blacklisted degov_is_blacklisted ◌-ℤ◌
transfer-supplied = refl

transfer_overdrawn : transfer env 1 2 (asset (pos 501) sym) [] supplied ≡ err "overdrawn balance"
unfolding transfer may_send sub_balance is_blacklisted degov_is_blacklisted
transfer_overdrawn = refl

transfer_listed : transfer env 7 2 (asset (pos 5) sym) [] supplied ≡ err "missing authority"
unfolding transfer may_send is_blacklisted degov_is_blacklisted
transfer_listed = refl

supplied-Reach : Reach supplied
unfolding apply create issue add_balance ◌+ℤ◌ ◌-ℤ◌
supplied-Reach =
    next env (issues 1 (asset (pos 500) sym) [])
      (next env (creates 1 (asset (pos 1000) sym)) start sdk-IsSdk refl) sdk-IsSdk refl

shared-Reach : Reach shared
unfolding apply
shared-Reach =
    next env (transfers 1 2 (asset (pos 20) sym) []) supplied-Reach sdk-IsSdk transfer-supplied

Reach-supply_example :
    (total (held 0x58414d41) shared.accounts ≡ supply_of 0x58414d41 shared.stats)
    × (pos 0 ≤ℤ supply_of 0x58414d41 shared.stats)
    × ((s : Name) (a : Account)
        → find s 0x58414d41 shared.accounts ≡ some a
        → (pos 0 ≤ℤ a.balance.amount) × (a.balance.amount ≤ℤ supply_of 0x58414d41 shared.stats))
    × ((r : CurrencyStats)
        → find 0x58414d41 0x58414d41 shared.stats ≡ some r
        → (r.supply.amount ≤ℤ r.max_supply.amount) × (r.max_supply.amount ≤ℤ pos max_amount))
Reach-supply_example = Reach-supply 0x58414d41 shared-Reach

transfer_total_example :
    (st' : State) × (transfer env 1 2 (asset (pos 20) sym) [] supplied ≡ ok st')
unfolding may_send is_blacklisted degov_is_blacklisted
transfer_total_example =
    transfer_total env sdk-IsSdk 1 2 (asset (pos 20) sym) [] supplied
      (record { supply = asset (pos 500) sym; max_supply = asset (pos 1000) sym; issuer = 1 })
      (record { balance = asset (pos 500) sym }) (Reach-IsValid supplied-Reach) refl refl refl
      (omega arith) refl (omega arith) refl refl (omega arith) tt

transfer_permitted_example :
    (env.has_auth 1 ≡ true)
    × (env.is_account 2 ≡ true)
    × (is_blacklisted env supplied 1 Names.amax_token ≡ true → 2 ≡ Names.oooo)
    × (1 ≡ Names.aaaaaaaaaaaa → 2 ≡ Names.amax)
transfer_permitted_example =
    transfer_permitted env sdk-IsSdk 1 2 (asset (pos 20) sym) [] supplied shared transfer-supplied

transfer_moves_example :
    (◌≢◌ {A = ℕ} 1 2)
    × (pos 0 <ℤ pos 20)
    × (pos 20 ≤ℤ amount_of 1 0x58414d41 supplied.accounts)
    × (amount_of 1 0x58414d41 shared.accounts ≡ amount_of 1 0x58414d41 supplied.accounts -ℤ pos 20)
    × (amount_of 2 0x58414d41 shared.accounts ≡ amount_of 2 0x58414d41 supplied.accounts +ℤ pos 20)
    × ((o c : ℕ)
        → (at 1 0x58414d41 o c || at 2 0x58414d41 o c) ≡ false
        → amount_of o c shared.accounts ≡ amount_of o c supplied.accounts)
    × (shared.stats ≡ supplied.stats)
    × (shared.blacklist ≡ supplied.blacklist)
    × (shared.recipients ≡ 2 ∷ 1 ∷ [])
transfer_moves_example =
    transfer_moves env sdk-IsSdk 1 2 (asset (pos 20) sym) [] supplied shared transfer-supplied

fall_permitted_example : Permits env supplied 1
unfolding apply
fall_permitted_example =
    fall_permitted env sdk-IsSdk 1 0x58414d41 (transfers 1 2 (asset (pos 20) sym) []) supplied
      shared transfer-supplied (omega arith)

abbrev batch : List Name
batch = 8 ∷ 9 ∷ 8 ∷ []

abbrev listing : State
listing = record supplied {
  blacklist =
      record {
        scope = Names.amax_token;
        key = 9;
        payer = Names.amax_token;
        row = record { account = 9 };
      }
      ∷ record {
        scope = Names.amax_token;
        key = 8;
        payer = Names.amax_token;
        row = record { account = 8 };
      }
      ∷ [];
}

contains-blacklist_example :
    ((x : Name)
      → contains Names.amax_token x listing.blacklist
        ≡ (contains {R = Blacklisted} Names.amax_token x [] || elem x batch))
    × (length batch ≤ 50)
    × ((env.has_auth env.self || env.has_auth Names.armoniaadmin) ≡ true)
    × (listing.accounts ≡ supplied.accounts)
    × (listing.stats ≡ supplied.stats)
unfolding blacklist add_all
contains-blacklist_example = contains-blacklist env batch true supplied listing tt refl
