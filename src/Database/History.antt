-- ===== src/Database/History.antt =====
-- The transactions of an address: the newest first, at most 200.
use hikari.Prelude.{
  ℕ, zero, suc, ◌-◌, ◌≤◌, ◌<◌, ◌≡◌, refl, ap, List, [], ◌∷◌, length, take, Option, arith, ltb,
  Bool-cases, inl, inr,
}
use hikari.Prelude.Text.{String, ◌==◌, eq_refl}
use hikari.Prelude.Dict.{lookup, lookup-insert}
use hikari.Prelude.Number.{Number}
use hikari.Prelude.Json.{Json}
use hikari.Database.Types.{Host, UserTransaction, Database, Draw, ClientDefaults}
use hikari.Database.Storage.{persist_state, or_empty}
use hikari.Database.Profiles.{
  no_defaults, get_or_create_user_profile, update_user_preferences, fetch_current_ledger,
  get_user_loyalty,
}
use hikari.Database.Booking.{
  all_but_last, push_transaction, record_transaction, get_user_transactions, record_deposit_at,
  record_deposit, with_map, deposited, held_portfolio, deposit_transaction, put_portfolio,
}
use hikari.Database.Deposits.{record_deposit_at-cases}
use hikari.Database.Isolation.{
  Call, profile, preferences, deposit, transaction, loyalty, ledger, apply_call, apply_calls,
}

module _ {A : Type 0} where
  take-all_but_last : (k : ℕ) (xs : List A) → k < length xs → take k (all_but_last xs) ≡ take k xs
  take-all_but_last zero xs h = refl
  take-all_but_last (suc k) [] h = refl
  take-all_but_last (suc k) (x ∷ []) h = absurd (omega arith)
  take-all_but_last (suc k) (x ∷ y ∷ xs) h =
      ap (λ (t : List A). x ∷ t) (take-all_but_last k (y ∷ xs) (omega arith))

  length-all_but_last : (xs : List A) → length (all_but_last xs) ≡ length xs - 1
  length-all_but_last [] = refl
  length-all_but_last (x ∷ []) = refl
  length-all_but_last (x ∷ y ∷ xs) = omega (arith, length-all_but_last (y ∷ xs))

  push_transaction-le :
      (tx : A) (list : List A) → length list ≤ 200 → length (push_transaction tx list) ≤ 200
  unfolding push_transaction
  push_transaction-le tx list h = ground (arith, length-all_but_last (tx ∷ list))

  take-push_transaction :
      (k : ℕ) (tx : A) (list : List A)
      → k < 200
      → take (suc k) (push_transaction tx list) ≡ tx ∷ take k list
  unfolding push_transaction
  take-push_transaction k tx list h = elim (Bool-cases (ltb 200 (length (tx ∷ list)))) [
    | inl long ↦ rw long (take-all_but_last (suc k) (tx ∷ list) (ground arith))
    | inr short ↦ rw short refl
  ]

module _ {N : Type 0} where
  persist-transactions :
      (d : Draw) (db : Database N) → (persist_state d db).transactions_table ≡ db.transactions_table
  unfolding persist_state
  persist-transactions d db = ground arith

  -- After a transaction is recorded, the history of its address for a limit up to 200 is that
  -- transaction, and then what the history for a limit of one less was before.
  pub get_user_transactions-record :
      (db : Database N) (tx : UserTransaction N) (d : Draw) (k : ℕ)
      → k < 200
      → get_user_transactions (record_transaction db tx d) tx.user_address (suc k)
        ≡ tx ∷ get_user_transactions db tx.user_address k
  unfolding get_user_transactions record_transaction
  get_user_transactions-record db tx d k h =
      rw (persist-transactions d _) (simp (lookup-insert, eq_refl) (take-push_transaction k tx _ h))

  -- No address has more than 200 transactions.
  abbrev pub IsShort : Database N → Type 0
  IsShort db = (b : String) → length (or_empty (lookup b db.transactions_table)) ≤ 200

  record_transaction-IsShort :
      (db : Database N) (tx : UserTransaction N) (d : Draw)
      → IsShort db
      → IsShort (record_transaction db tx d)
  unfolding record_transaction
  record_transaction-IsShort db tx d h b =
      rw (persist-transactions d _, lookup-insert)
        (elim (Bool-cases (tx.user_address == b)) [
          | inl same ↦ rw same (push_transaction-le tx _ (h tx.user_address))
          | inr other ↦ rw other (h b)
        ])

module _ (n : Number) (h : Host (Number.Num n)) where
  open n use {Num}

  profile-transactions :
      (db : Database Num) (a : String) (c : ClientDefaults) (d : Draw)
      → (get_or_create_user_profile db a c d).0.transactions_table ≡ db.transactions_table
  unfolding get_or_create_user_profile persist_state
  profile-transactions db a c d = ground arith

  preferences-transactions :
      (db : Database Num) (a : String) (v : Json Num) (d : Draw)
      → (update_user_preferences h db a v d).0.transactions_table ≡ db.transactions_table
  unfolding update_user_preferences persist_state
  preferences-transactions db a v d = ground (arith, profile-transactions db a no_defaults d)

  loyalty-transactions :
      (db : Database Num) (a : String) (d : Draw)
      → (get_user_loyalty n db a d).0.transactions_table ≡ db.transactions_table
  unfolding get_user_loyalty persist_state
  loyalty-transactions db a d = ground arith

  ledger-transactions :
      (db : Database Num) (l : Option Num)
      → (fetch_current_ledger n db l).0.transactions_table ≡ db.transactions_table
  unfolding fetch_current_ledger
  ledger-transactions db l = ground arith

  deposit-IsShort :
      (db : Database Num) (a v x y t : String) (l : Num) (d : Draw)
      → IsShort db
      → IsShort (record_deposit_at h db a v x y t l d).0
  deposit-IsShort db a v x y t l d bounded = elim (record_deposit_at-cases h db a v x y t l d) [
    | inl failed ↦ rw failed bounded
    | inr (total, sum, (_, _, booked)) ↦
        let p = deposited h (held_portfolio db a v d) total sum d in
        let tx = deposit_transaction a v x y t l d in
        let db' : Database Num = put_portfolio a v p (with_map a db) in
        rw booked (λ b.
          rw (persist-transactions d (record_transaction db' tx d))
            (record_transaction-IsShort db' tx d bounded b))
  ]

  apply_call-IsShort :
      (db : Database Num) (c : Call Num) → IsShort db → IsShort (apply_call n h db c)
  unfolding apply_call record_deposit
  apply_call-IsShort db (profile a c d) b = λ k. rw (profile-transactions db a c d) (b k)
  apply_call-IsShort db (preferences a v d) b = λ k. rw (preferences-transactions db a v d) (b k)
  apply_call-IsShort db (deposit a v x y t l d) b = deposit-IsShort db a v x y t _ d b
  apply_call-IsShort db (transaction tx d) b = record_transaction-IsShort db tx d b
  apply_call-IsShort db (loyalty a d) b = λ k. rw (loyalty-transactions db a d) (b k)
  apply_call-IsShort db (ledger l) b = λ k. rw (ledger-transactions db l) (b k)

  -- A database where no address has more than 200 transactions stays so under any calls.
  pub apply_calls-IsShort :
      (cs : List (Call Num)) (db : Database Num) → IsShort db → IsShort (apply_calls n h cs db)
  unfolding apply_calls
  apply_calls-IsShort [] db b = b
  apply_calls-IsShort (c ∷ cs) db b = apply_calls-IsShort cs _ (apply_call-IsShort db c b)
