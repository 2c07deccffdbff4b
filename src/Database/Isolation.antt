-- ===== src/Database/Isolation.antt =====
-- Operations for one address leave what the database holds of any other as it is.
use hikari.Prelude.{
  ◌≡◌, refl, ◌∙◌, false, List, [], ◌∷◌, Option, none, some, arith, Bool-cases, Option-cases, inl,
  inr,
}
use hikari.Prelude.Text.{String, ◌==◌}
use hikari.Prelude.Dict.{lookup, has, insert, lookup-insert}
use hikari.Prelude.Number.{Number}
use hikari.Prelude.Except.{Except-cases}
use hikari.Prelude.Json.{Json, is_nonzero}
use hikari.Database.Types.{
  Host, UserPortfolio, UserTransaction, Database, Draw, ClientDefaults, UserProfile,
}
use hikari.Database.Deposits.{record_deposit_at-cases}
use hikari.Database.Storage.{persist_state}
use hikari.Database.Profiles.{
  is_account, touch_profile, default_loyalty, no_defaults, get_or_create_user_profile,
  update_user_preferences, fetch_current_ledger, get_user_loyalty,
}
use hikari.Database.Booking.{with_map, record_transaction, record_deposit_at, record_deposit}

-- A call of a public method that may change the state.
pub data Call (N : Type 0) : Type 0 where
  profile : String → ClientDefaults → Draw → Call N
  preferences : String → Json N → Draw → Call N
  deposit : String → String → String → String → String → Option N → Draw → Call N
  transaction : UserTransaction N → Draw → Call N
  loyalty : String → Draw → Call N
  ledger : Option N → Call N

-- The call is for another address than this, or for none.
abbrev pub IsForOther : {N : Type 0} → String → Call N → Type 0
IsForOther b (profile a c d) = (a == b) ≡ false
IsForOther b (preferences a v d) = (a == b) ≡ false
IsForOther b (deposit a v x y t l d) = (a == b) ≡ false
IsForOther b (transaction tx d) = (tx.user_address == b) ≡ false
IsForOther b (loyalty a d) = (a == b) ≡ false
IsForOther b (ledger l) = Unit {0}

abbrev pub AllForOther : {N : Type 0} → String → List (Call N) → Type 0
AllForOther b [] = Unit {0}
AllForOther b (c ∷ cs) = IsForOther b c × AllForOther b cs

-- Both databases hold the same for the address.
pub record SameFor {N : Type 0} (b : String) (db db' : Database N) : Type 0 where
  pub users : lookup b db'.users_table ≡ lookup b db.users_table
  pub portfolios : lookup b db'.portfolios_table ≡ lookup b db.portfolios_table
  pub transactions : lookup b db'.transactions_table ≡ lookup b db.transactions_table
  pub loyalties : lookup b db'.loyalty_table ≡ lookup b db.loyalty_table

module _ (n : Number) (h : Host (Number.Num n)) where
  open n use {Num}

  unfoldable pub apply_call : Database Num → Call Num → Database Num
  apply_call db (profile a c d) = (get_or_create_user_profile db a c d).0
  apply_call db (preferences a v d) = (update_user_preferences h db a v d).0
  apply_call db (deposit a v x y t l d) = (record_deposit n h db a v x y t l d).0
  apply_call db (transaction tx d) = record_transaction db tx d
  apply_call db (loyalty a d) = (get_user_loyalty n db a d).0
  apply_call db (ledger l) = (fetch_current_ledger n db l).0

  unfoldable pub apply_calls : List (Call Num) → Database Num → Database Num
  apply_calls [] db = db
  apply_calls (c ∷ cs) db = apply_calls cs (apply_call db c)

  SameFor-trans :
      {b : String} {x y z : Database Num} → SameFor b x y → SameFor b y z → SameFor b x z
  SameFor-trans p q = record {
    users = q.users ∙ p.users;
    portfolios = q.portfolios ∙ p.portfolios;
    transactions = q.transactions ∙ p.transactions;
    loyalties = q.loyalties ∙ p.loyalties;
  }

  persist-SameFor : (b : String) (d : Draw) (db : Database Num) → SameFor b db (persist_state d db)
  unfolding persist_state
  persist-SameFor b d db = ground arith

  SameFor-refl : (b : String) (db : Database Num) → SameFor b db db
  SameFor-refl b db = record {
    users = refl;
    portfolios = refl;
    transactions = refl;
    loyalties = refl;
  }

  -- A database that differs in one table, at another address, and is then persisted.
  module _ (b a : String) (other : (a == b) ≡ false) (db : Database Num) (d : Draw) where
    insert_other :
        {V : Type 0} (v : V) (m : List (String × V)) → lookup b (insert a v m) ≡ lookup b m
    insert_other v m = ground (arith, lookup-insert a b v m, other)

    user-SameFor :
        (u : UserProfile Num)
        → SameFor b db (persist_state d (record db { users_table = insert a u db.users_table }))
    user-SameFor u =
        SameFor-trans
          (record {
            users = insert_other u db.users_table;
            portfolios = refl;
            transactions = refl;
            loyalties = refl;
          })
          (persist-SameFor b d _)

    profile-SameFor : (c : ClientDefaults) → SameFor b db (get_or_create_user_profile db a c d).0
    unfolding get_or_create_user_profile
    profile-SameFor c = elim (Bool-cases (is_account a)) [
      | inl valid ↦ rw valid (user-SameFor (touch_profile a c d db))
      | inr bad ↦ rw bad (SameFor-refl b db)
    ]

    portfolio-SameFor :
        (v : List (String × UserPortfolio))
        → SameFor b db (record db { portfolios_table = insert a v db.portfolios_table })
    portfolio-SameFor v = record {
      users = refl;
      portfolios = insert_other v db.portfolios_table;
      transactions = refl;
      loyalties = refl;
    }

    with_map-SameFor : SameFor b db (with_map a db)
    with_map-SameFor = elim (Bool-cases (has a db.portfolios_table)) [
      | inl there ↦ rw there (SameFor-refl b db)
      | inr missing ↦ rw missing (portfolio-SameFor [])
    ]

    loyalty-SameFor : SameFor b db (get_user_loyalty n db a d).0
    unfolding get_user_loyalty
    loyalty-SameFor = elim (Option-cases (lookup a db.loyalty_table)) [
      | inr (l, e) ↦ rw (e, get_user_loyalty) (SameFor-refl b db)
      | inl e ↦
          rw (e, get_user_loyalty)
            (SameFor-trans
              (record {
                users = refl;
                portfolios = refl;
                transactions = refl;
                loyalties = insert_other (default_loyalty n a) db.loyalty_table;
              })
              (persist-SameFor b d _))
    ]

  transaction-SameFor :
      (b : String) (tx : UserTransaction Num) (other : (tx.user_address == b) ≡ false)
      (db : Database Num) (d : Draw)
      → SameFor b db (record_transaction db tx d)
  unfolding record_transaction
  transaction-SameFor b tx other db d =
      SameFor-trans
        (record {
          users = refl;
          portfolios = refl;
          transactions = insert_other b tx.user_address other db d _ db.transactions_table;
          loyalties = refl;
        })
        (persist-SameFor b d _)

  deposit-SameFor :
      (b a : String) (other : (a == b) ≡ false) (db : Database Num) (v amount shares hash : String)
      (l : Num) (d : Draw)
      → SameFor b db (record_deposit_at h db a v amount shares hash l d).0
  unfolding record_deposit_at
  deposit-SameFor b a other db v amount shares hash l d =
      elim (record_deposit_at-cases h db a v amount shares hash l d) [
        | inl failed ↦ rw failed (with_map-SameFor b a other db d)
        | inr (total, sum, (_, _, booked)) ↦ rw booked (
            SameFor-trans
              (SameFor-trans (with_map-SameFor b a other db d)
                (portfolio-SameFor b a other (with_map a db) d _))
              (SameFor-trans (transaction-SameFor b _ other _ d) (persist-SameFor b d _)))
      ]

  preferences-SameFor :
      (b a : String) (other : (a == b) ≡ false) (db : Database Num) (v : Json Num) (d : Draw)
      → SameFor b db (update_user_preferences h db a v d).0
  unfolding update_user_preferences
  preferences-SameFor b a other db v d =
      elim (Except-cases (get_or_create_user_profile db a no_defaults d).1) [
        | inr (e, failed) ↦
            rw (failed, update_user_preferences) (profile-SameFor b a other db d no_defaults)
        | inl (u, found) ↦
            rw (found, update_user_preferences)
              (SameFor-trans (profile-SameFor b a other db d no_defaults)
                (user-SameFor b a other _ d _))
      ]

  ledger-SameFor :
      (b : String) (db : Database Num) (l : Option Num)
      → SameFor b db (fetch_current_ledger n db l).0
  unfolding fetch_current_ledger
  ledger-SameFor b db none = SameFor-refl b db
  ledger-SameFor b db (some l) = elim (Bool-cases (is_nonzero n l)) [
    | inl there ↦
        rw (there, fetch_current_ledger)
          (record { users = refl; portfolios = refl; transactions = refl; loyalties = refl })
    | inr zero_ ↦ rw (zero_, fetch_current_ledger) (SameFor-refl b db)
  ]

  apply_call-SameFor :
      (b : String) (c : Call Num) (db : Database Num)
      → IsForOther b c
      → SameFor b db (apply_call db c)
  unfolding apply_call
  apply_call-SameFor b (profile a c d) db other = profile-SameFor b a other db d c
  apply_call-SameFor b (preferences a v d) db other = preferences-SameFor b a other db v d
  apply_call-SameFor b (deposit a v x y t l d) db other =
      unfold record_deposit in deposit-SameFor b a other db v x y t _ d
  apply_call-SameFor b (transaction tx d) db other = transaction-SameFor b tx other db d
  apply_call-SameFor b (loyalty a d) db other = loyalty-SameFor b a other db d
  apply_call-SameFor b (ledger l) db other = ledger-SameFor b db l

  -- Calls for other addresses leave the profile, the portfolio, the transactions and the loyalty of an
  -- address as they are, whatever they are and however many.
  pub apply_calls-SameFor :
      (b : String) (cs : List (Call Num)) (db : Database Num)
      → AllForOther b cs
      → SameFor b db (apply_calls cs db)
  unfolding apply_calls
  apply_calls-SameFor b [] db h = SameFor-refl b db
  apply_calls-SameFor b (c ∷ cs) db (other, others) =
      SameFor-trans (apply_call-SameFor b c db other) (apply_calls-SameFor b cs _ others)
