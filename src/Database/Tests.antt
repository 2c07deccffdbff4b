-- ===== src/Database/Tests.antt =====
-- Concrete runs of the database client.
mod Unary
use hikari.Prelude.{ℕ, ◌≤◌, ◌≡◌, refl, true, List, [], ◌∷◌, none, some, length, arith}
use hikari.Prelude.Int.{ℤ, pos, ◌+ℤ◌}
use hikari.Prelude.Text.{String}
use hikari.Prelude.Number.{fixed_point}
use hikari.Prelude.Dict.{lookup}
use hikari.Database.Types.{UserTransaction, UserPortfolio, Database, Draw}
use hikari.Database.Storage.{new_database, mode_of, initialize_storage, or_empty}
use hikari.Database.Booking.{
  new_portfolio, get_user_transactions, record_transaction, deposit_transaction,
}
use hikari.Database.Deposits.{Deposit, deposit_all, assets, shares_held, deposit_all-AddUp}
use hikari.Database.Isolation.{
  Call, deposit, loyalty, transaction, SameFor, apply_calls, apply_calls-SameFor,
}
use hikari.Database.History.{IsShort, apply_calls-IsShort, get_user_transactions-record}
use hikari.Database.Storage.{persist_state, initialize_storage}
use hikari.Database.Keyed.{WellKeyed}
use hikari.Database.Restart.{Agree, apply_calls-restart}
use Unary.{host, host-ReadsBack, parse}

abbrev pub draw : Draw
draw = record {
  uuid = "u";
  tx_uuid = "t";
  now = "1";
  later = "2";
  tx_time = "3";
  saved_at = "4";
  can_write = true;
}

abbrev portfolio : UserPortfolio
portfolio = record {
  id = "p";
  user_address = "GA";
  vault_type = "EARN_XLM";
  deposited_stroops = "01";
  h_shares_balance = "011";
  cost_basis_stroops = "01";
  yield_earned_stroops = "0";
  updated_at = "0";
}

abbrev payment : String → UserTransaction ℤ
payment hash = deposit_transaction "GA" "EARN_XLM" "01" "01" hash (pos 7) draw

-- One vault of one address, with one transaction.
abbrev database : Database ℤ
database = record (new_database fixed_point host (λ name. none) none) {
  portfolios_table = ("GA", ("EARN_XLM", portfolio) ∷ []) ∷ [];
  transactions_table = ("GA", payment "first" ∷ []) ∷ [];
}

abbrev by_text : String → String → Deposit ℤ
by_text amount shares = record {
  amount = amount;
  shares = shares;
  tx_hash = "h";
  ledger = pos 7;
  draw = draw;
}

abbrev two_deposits : List (Deposit ℤ)
two_deposits = by_text "011" "0111" ∷ by_text "0" "01" ∷ []

zero_text : parse "0" ≡ some (pos 0)
unfolding parse
zero_text = refl

deposit_all-AddUp_example :
    (assets host (deposit_all host "GA" "EARN_XLM" two_deposits database) "GA" "EARN_XLM"
      ≡ some (pos 3))
    × (shares_held host (deposit_all host "GA" "EARN_XLM" two_deposits database) "GA" "EARN_XLM"
        ≡ some (pos 6))
unfolding parse lookup ◌+ℤ◌
deposit_all-AddUp_example =
    deposit_all-AddUp host "GA" "EARN_XLM" host-ReadsBack zero_text two_deposits database (pos 1)
      (pos 2) (pos 3) (pos 6) refl refl (pos 2, refl, (pos 0, refl, refl))
      (pos 3, refl, (pos 1, refl, refl))

abbrev others_calls : List (Call ℤ)
others_calls =
    deposit "GB" "EARN_XLM" "01" "01" "h" none draw
    ∷ loyalty "GC" draw
    ∷ transaction (payment "second") draw
    ∷ []

apply_calls-SameFor_example :
    SameFor "GD" database (apply_calls fixed_point host others_calls database)
apply_calls-SameFor_example =
    apply_calls-SameFor fixed_point host "GD" others_calls database (refl, (refl, (refl, _)))

database-IsShort : IsShort database
unfolding lookup
database-IsShort b = ground arith

keyed : WellKeyed database
unfolding lookup new_database initialize_storage
keyed = record {
  users = _;
  portfolios = (((refl, refl), refl, _), refl, _);
  transactions = ((refl, _), refl, _);
  loyalties = _;
}

apply_calls-restart_example :
    let db' = apply_calls fixed_point host others_calls database in
    Agree "GA" db' (new_database fixed_point host (λ name. none) (persist_state draw db').sync_file)
apply_calls-restart_example =
    apply_calls-restart fixed_point host (λ name. none) others_calls database draw refl keyed refl
      "GA"
