-- ===== src/Database/Keyed/Calls.antt =====
-- Every call keeps each record under its own address.
use hikari.Prelude.{
  ◌≡◌, refl, List, [], ◌∷◌, Option, none, some, Bool-cases, Option-cases, inl, inr,
}
use hikari.Prelude.Text.{String}
use hikari.Prelude.Dict.{Dict, lookup, insert, has}
use hikari.Prelude.Number.{Number}
use hikari.Prelude.Json.{is_nonzero}
use hikari.Database.Types.{Host, UserPortfolio, Database, Draw}
use hikari.Database.Storage.{or_empty}
use hikari.Database.Profiles.{default_loyalty, fetch_current_ledger, get_user_loyalty}
use hikari.Database.Booking.{
  with_map, record_deposit_at, record_deposit, held_portfolio, new_portfolio, put_portfolio,
  deposited, deposit_transaction,
}
use hikari.Database.Deposits.{record_deposit_at-cases}
use hikari.Database.Isolation.{
  Call, profile, preferences, deposit, transaction, loyalty, ledger, apply_call, apply_calls,
}
use hikari.Database.Keyed.{Keyed, Keyed-lookup, Keyed-insert, WellKeyed}
use hikari.Database.Keyed.Rows.{
  persist-WellKeyed, profile-WellKeyed, preferences-WellKeyed, transaction-WellKeyed,
}

module _ {N : Type 0} where
  -- the table of portfolios with a keyed map at an address
  maps-WellKeyed :
      (a : String) (m : Dict UserPortfolio) (db : Database N)
      → Keyed (λ v (p : UserPortfolio). (p.user_address ≡ a) × (p.vault_type ≡ v)) m
      → WellKeyed db
      → WellKeyed (record db { portfolios_table = insert a m db.portfolios_table })
  maps-WellKeyed a m db own h = record {
    users = h.users;
    portfolios =
        Keyed-insert
          (λ k (ps : Dict UserPortfolio).
            Keyed (λ v (p : UserPortfolio). (p.user_address ≡ k) × (p.vault_type ≡ v)) ps)
          a m db.portfolios_table own h.portfolios;
    transactions = h.transactions;
    loyalties = h.loyalties;
  }

  with_map-WellKeyed : (a : String) (db : Database N) → WellKeyed db → WellKeyed (with_map a db)
  with_map-WellKeyed a db h = elim (Bool-cases (has a db.portfolios_table)) [
    | inl there ↦ rw there h
    | inr missing ↦ rw missing (maps-WellKeyed a [] db _ h)
  ]

  map-Keyed :
      (a : String) (db : Database N)
      → WellKeyed db
      → Keyed
          (λ v (p : UserPortfolio). (p.user_address ≡ a) × (p.vault_type ≡ v))
          (or_empty (lookup a db.portfolios_table))
  map-Keyed a db h = elim (Option-cases (lookup a db.portfolios_table)) [
    | inl missing ↦ rw missing _
    | inr (m, there) ↦ rw there (Keyed-lookup _ a m db.portfolios_table h.portfolios there)
  ]

  held-own :
      (a v : String) (d : Draw) (db : Database N)
      → WellKeyed db
      → let p = held_portfolio db a v d in (p.user_address ≡ a) × (p.vault_type ≡ v)
  unfolding new_portfolio
  held-own a v d db h = elim (Option-cases (lookup v (or_empty (lookup a db.portfolios_table)))) [
    | inl missing ↦ rw (missing, held_portfolio) (refl, refl)
    | inr (p, there) ↦ rw (there, held_portfolio) (Keyed-lookup _ v p _ (map-Keyed a db h) there)
  ]

  put-WellKeyed :
      (a v : String) (p : UserPortfolio) (db : Database N)
      → (p.user_address ≡ a) × (p.vault_type ≡ v)
      → WellKeyed db
      → WellKeyed (put_portfolio a v p db)
  put-WellKeyed a v p db own h =
      maps-WellKeyed a _ db (Keyed-insert _ v p _ own (map-Keyed a db h)) h

  deposit-WellKeyed :
      (host : Host N) (db : Database N) (a v x y t : String) (l : N) (d : Draw)
      → WellKeyed db
      → WellKeyed (record_deposit_at host db a v x y t l d).0
  deposit-WellKeyed host db a v x y t l d h = elim (record_deposit_at-cases host db a v x y t l d) [
    | inl failed ↦ rw failed (with_map-WellKeyed a db h)
    | inr (total, sum, (_, _, booked)) ↦
        let p = deposited host (held_portfolio db a v d) total sum d in
        rw booked (
          persist-WellKeyed d _ (
            transaction-WellKeyed _ (deposit_transaction a v x y t l d) d
              (put-WellKeyed a v p _ (held-own a v d db h) (with_map-WellKeyed a db h))))
  ]

module _ (n : Number) (host : Host (Number.Num n)) where
  open n use {Num}

  loyalty-WellKeyed :
      (db : Database Num) (a : String) (d : Draw)
      → WellKeyed db
      → WellKeyed (get_user_loyalty n db a d).0
  unfolding get_user_loyalty default_loyalty
  loyalty-WellKeyed db a d h = elim (Option-cases (lookup a db.loyalty_table)) [
    | inr (l, e) ↦ rw (e, get_user_loyalty) h
    | inl e ↦
        rw (e, get_user_loyalty)
          (persist-WellKeyed d _ (record {
            users = h.users;
            portfolios = h.portfolios;
            transactions = h.transactions;
            loyalties = Keyed-insert _ a (default_loyalty n a) db.loyalty_table refl h.loyalties;
          }))
  ]

  ledger-WellKeyed :
      (db : Database Num) (l : Option Num)
      → WellKeyed db
      → WellKeyed (fetch_current_ledger n db l).0
  unfolding fetch_current_ledger
  ledger-WellKeyed db none h = h
  ledger-WellKeyed db (some l) h = elim (Bool-cases (is_nonzero n l)) [
    | inl there ↦
        rw (there, fetch_current_ledger)
          (record {
            users = h.users;
            portfolios = h.portfolios;
            transactions = h.transactions;
            loyalties = h.loyalties;
          })
    | inr zero_ ↦ rw (zero_, fetch_current_ledger) h
  ]

  apply_call-WellKeyed :
      (db : Database Num) (c : Call Num) → WellKeyed db → WellKeyed (apply_call n host db c)
  unfolding apply_call record_deposit
  apply_call-WellKeyed db (profile a c d) h = profile-WellKeyed db a c d h
  apply_call-WellKeyed db (preferences a v d) h = preferences-WellKeyed host db a v d h
  apply_call-WellKeyed db (deposit a v x y t l d) h = deposit-WellKeyed host db a v x y t _ d h
  apply_call-WellKeyed db (transaction tx d) h = transaction-WellKeyed db tx d h
  apply_call-WellKeyed db (loyalty a d) h = loyalty-WellKeyed db a d h
  apply_call-WellKeyed db (ledger l) h = ledger-WellKeyed db l h

  -- Where every record of a database stands under its own address (and vault), and no key stands
  -- twice, this still holds after any calls.
  pub apply_calls-WellKeyed :
      (cs : List (Call Num)) (db : Database Num)
      → WellKeyed db
      → WellKeyed (apply_calls n host cs db)
  unfolding apply_calls
  apply_calls-WellKeyed [] db h = h
  apply_calls-WellKeyed (c ∷ cs) db h = apply_calls-WellKeyed cs _ (apply_call-WellKeyed db c h)
