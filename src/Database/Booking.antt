-- ===== src/Database/Booking.antt =====
-- services/database/src/db-client.ts: portfolios, transactions and deposits.
use hikari.Prelude.{ℕ, List, [], ◌∷◌, length, take, Option, none, some, ltb, if◌then◌else◌}
use hikari.Prelude.Int.{ℤ, ◌+ℤ◌}
use hikari.Prelude.Text.{String, ◌⊕◌}
use hikari.Prelude.Dict.{insert, lookup, has}
use hikari.Prelude.Number.{Number}
use hikari.Prelude.Except.{Except, ok, thrown}
use hikari.Prelude.Json.{is_nonzero}
use hikari.Database.Types.{Host, UserPortfolio, UserTransaction, Database, Draw}
use hikari.Database.Storage.{persist_state, values, or_empty}

unfoldable pub new_portfolio : String → String → String → String → UserPortfolio
new_portfolio id address vault_type now = record {
  id = id;
  user_address = address;
  vault_type = vault_type;
  deposited_stroops = "0";
  h_shares_balance = "0";
  cost_basis_stroops = "0";
  yield_earned_stroops = "0";
  updated_at = now;
}

-- `BigInt(a) + BigInt(b)`
unfoldable pub add_texts : {N : Type 0} → Host N → String → String → Option ℤ
add_texts h a b = elim (h.big_int a) [
  | none ↦ none
  | some x ↦ elim (h.big_int b) [ none ↦ none | some y ↦ some (x +ℤ y) ]
]

abbrev pub max_transactions : ℕ
max_transactions = 200

-- `list.pop()`, of a list that has an element
abbrev pub all_but_last : {A : Type 0} → List A → List A
all_but_last [] = []
all_but_last (x ∷ []) = []
all_but_last (x ∷ y ∷ xs) = x ∷ all_but_last (y ∷ xs)

-- `list.unshift(tx)`, and `list.pop()` if there are more than 200
unfoldable pub push_transaction : {A : Type 0} → A → List A → List A
push_transaction tx list =
    let pushed = tx ∷ list in
    if ltb max_transactions (length pushed) then all_but_last pushed else pushed

module _ {N : Type 0} where
  unfoldable pub get_user_portfolio : Database N → String → Draw → List UserPortfolio
  unfolding new_portfolio values
  get_user_portfolio db address d = elim (lookup address db.portfolios_table) [
    | none ↦ new_portfolio d.uuid address "EARN_XLM" d.now ∷ []
    | some user_map ↦ values user_map
  ]

  unfoldable pub record_transaction : Database N → UserTransaction N → Draw → Database N
  unfolding push_transaction
  record_transaction db tx d =
      let list = or_empty (lookup tx.user_address db.transactions_table) in
      persist_state d (record db {
        transactions_table =
            insert tx.user_address (push_transaction tx list) db.transactions_table;
      })

  unfoldable pub get_user_transactions : Database N → String → ℕ → List (UserTransaction N)
  get_user_transactions db address limit =
      take limit (or_empty (lookup address db.transactions_table))

  abbrev pub deposit_transaction :
      String → String → String → String → String → N → Draw → UserTransaction N
  deposit_transaction address vault_type amount shares tx_hash ledger d = record {
    id = d.tx_uuid;
    user_address = address;
    tx_hash = tx_hash;
    action = "DEPOSIT";
    vault_type = vault_type;
    amount_stroops = amount;
    shares_delta = "+" ⊕ shares;
    status = "CONFIRMED";
    ledger_sequence = ledger;
    timestamp = d.tx_time;
  }

  -- the entry that a deposit adds to
  abbrev pub held_portfolio : Database N → String → String → Draw → UserPortfolio
  held_portfolio db address vault_type d =
      elim (lookup vault_type (or_empty (lookup address db.portfolios_table))) [
        | none ↦ new_portfolio d.uuid address vault_type d.now
        | some p ↦ p
      ]

  abbrev pub put_portfolio : String → String → UserPortfolio → Database N → Database N
  put_portfolio address vault_type p db = record db {
    portfolios_table =
        insert address (insert vault_type p (or_empty (lookup address db.portfolios_table)))
          db.portfolios_table;
  }

  -- the empty map that is stored for an address before its amounts are read
  abbrev pub with_map : String → Database N → Database N
  with_map address db = record db {
    portfolios_table =
        if has address db.portfolios_table
        then db.portfolios_table
        else insert address [] db.portfolios_table;
  }

  abbrev pub deposited : Host N → UserPortfolio → ℤ → ℤ → Draw → UserPortfolio
  deposited h p total shares d = record p {
    deposited_stroops = h.show_ℤ total;
    h_shares_balance = h.show_ℤ shares;
    cost_basis_stroops = h.show_ℤ total;
    updated_at = d.later;
  }

  abbrev pub book_deposit :
      Database N
      → String
      → String
      → String
      → String
      → String
      → N
      → Draw
      → UserPortfolio
      → Database N × Except UserPortfolio
  book_deposit db address vault_type amount shares tx_hash ledger d p = (
    persist_state d (
        record_transaction (put_portfolio address vault_type p db)
          (deposit_transaction address vault_type amount shares tx_hash ledger d) d),
    ok p,
  )

  -- `recordDeposit`, with the ledger sequence that it resolves to
  unfoldable pub record_deposit_at :
      Host N
      → Database N
      → String
      → String
      → String
      → String
      → String
      → N
      → Draw
      → Database N × Except UserPortfolio
  unfolding add_texts new_portfolio
  record_deposit_at h db address vault_type amount shares tx_hash ledger d =
      let p = held_portfolio db address vault_type d in
      elim (add_texts h p.deposited_stroops amount) [
        | none ↦ (with_map address db, thrown h.syntax_error)
        | some total ↦ elim (add_texts h p.h_shares_balance shares) [
          | none ↦ (with_map address db, thrown h.syntax_error)
          | some sum ↦
              book_deposit (with_map address db) address vault_type amount shares tx_hash ledger d
                (deposited h p total sum d)
        ]
      ]

module _ (n : Number) where
  open n use {Num, of_ℤ, div}

  -- `ledgerSequence || this.lastKnownLedgerSequence`
  abbrev pub resolved_ledger : Option Num → Num → Num
  resolved_ledger none last = last
  resolved_ledger (some s) last = if is_nonzero n s then s else last

  unfoldable pub record_deposit :
      Host Num
      → Database Num
      → String
      → String
      → String
      → String
      → String
      → Option Num
      → Draw
      → Database Num × Except UserPortfolio
  unfolding record_deposit_at
  record_deposit h db address vault_type amount shares tx_hash ledger d =
      record_deposit_at h db address vault_type amount shares tx_hash
        (resolved_ledger ledger db.last_known_ledger) d
