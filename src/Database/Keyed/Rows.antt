-- ===== src/Database/Keyed/Rows.antt =====
-- Profiles and transactions stay under their own address.
use hikari.Prelude.{
  ◌≡◌, refl, List, [], ◌∷◌, arith, Bool-cases, Option-cases, inl, inr, ltb, length,
}
use hikari.Prelude.Text.{String}
use hikari.Prelude.Dict.{lookup, insert}
use hikari.Prelude.Except.{Except-cases, ok}
use hikari.Prelude.Json.{Json}
use hikari.Database.Types.{Host, UserProfile, UserTransaction, Database, Draw, ClientDefaults}
use hikari.Database.Storage.{or_empty, persist_state}
use hikari.Database.Profiles.{
  is_account, touch_profile, new_profile, no_defaults, get_or_create_user_profile,
  update_user_preferences,
}
use hikari.Database.Booking.{all_but_last, push_transaction, record_transaction}
use hikari.Database.Keyed.{Keyed-lookup, Keyed-insert, AllOf, WellKeyed}

module _ {A : Type 0} (P : A → Type 0) where
  all_but_last-AllOf : (xs : List A) → AllOf P xs → AllOf P (all_but_last xs)
  all_but_last-AllOf [] h = _
  all_but_last-AllOf (x ∷ []) h = _
  all_but_last-AllOf (x ∷ y ∷ xs) (p, h) = (p, all_but_last-AllOf (y ∷ xs) h)

  push-AllOf : (x : A) (xs : List A) → P x → AllOf P xs → AllOf P (push_transaction x xs)
  unfolding push_transaction
  push-AllOf x xs p h = elim (Bool-cases (ltb 200 (length (x ∷ xs)))) [
    | inl long ↦ rw long (all_but_last-AllOf (x ∷ xs) (p, h))
    | inr short ↦ rw short (p, h)
  ]

module _ {N : Type 0} where
  pub persist-WellKeyed :
      (d : Draw) (db : Database N) → WellKeyed db → WellKeyed (persist_state d db)
  unfolding persist_state
  persist-WellKeyed d db h = elim (Bool-cases d.can_write) [
    | inl yes_ ↦ rw yes_ (record {
      users = h.users;
      portfolios = h.portfolios;
      transactions = h.transactions;
      loyalties = h.loyalties;
    })
    | inr no_ ↦ rw no_ h
  ]

  -- A table of users that is keyed, persisted.
  users-WellKeyed :
      (d : Draw) (a : String) (u : UserProfile N) (db : Database N)
      → u.stellar_address ≡ a
      → WellKeyed db
      → WellKeyed (persist_state d (record db { users_table = insert a u db.users_table }))
  users-WellKeyed d a u db own h = persist-WellKeyed d _ (record {
    users = Keyed-insert _ a u db.users_table own h.users;
    portfolios = h.portfolios;
    transactions = h.transactions;
    loyalties = h.loyalties;
  })

  touch-own :
      (a : String) (c : ClientDefaults) (d : Draw) (db : Database N)
      → WellKeyed db
      → (touch_profile a c d db).stellar_address ≡ a
  unfolding touch_profile new_profile
  touch-own a c d db h = elim (Option-cases (lookup a db.users_table)) [
    | inl missing ↦ rw (missing, touch_profile) refl
    | inr (u, there) ↦ rw (there, touch_profile) (Keyed-lookup _ a u db.users_table h.users there)
  ]

  pub profile-WellKeyed :
      (db : Database N) (a : String) (c : ClientDefaults) (d : Draw)
      → WellKeyed db
      → WellKeyed (get_or_create_user_profile db a c d).0
  unfolding get_or_create_user_profile
  profile-WellKeyed db a c d h = elim (Bool-cases (is_account a)) [
    | inl valid ↦ rw valid (users-WellKeyed d a _ db (touch-own a c d db h) h)
    | inr bad ↦ rw bad h
  ]

  profile-own :
      (db : Database N) (a : String) (c : ClientDefaults) (d : Draw) (u : UserProfile N)
      → WellKeyed db
      → (get_or_create_user_profile db a c d).1 ≡ ok u
      → u.stellar_address ≡ a
  unfolding get_or_create_user_profile
  profile-own db a c d u h e =
      let own = touch-own a c d db h in
      elim (Bool-cases (is_account a)) [
        | inl valid ↦ ground (arith, own, e, valid)
        | inr bad ↦ ground (arith, e, bad)
      ]

  pub preferences-WellKeyed :
      (host : Host N) (db : Database N) (a : String) (v : Json N) (d : Draw)
      → WellKeyed db
      → WellKeyed (update_user_preferences host db a v d).0
  unfolding update_user_preferences
  preferences-WellKeyed host db a v d h =
      elim (Except-cases (get_or_create_user_profile db a no_defaults d).1) [
        | inr (e, failed) ↦
            rw (failed, update_user_preferences) (profile-WellKeyed db a no_defaults d h)
        | inl (u, found) ↦
            rw (found, update_user_preferences)
              (users-WellKeyed d a _ _ (profile-own db a no_defaults d u h found)
                (profile-WellKeyed db a no_defaults d h))
      ]

  lists-own :
      (a : String) (db : Database N)
      → WellKeyed db
      → AllOf
          (λ (t : UserTransaction N). t.user_address ≡ a)
          (or_empty (lookup a db.transactions_table))
  lists-own a db h = elim (Option-cases (lookup a db.transactions_table)) [
    | inl missing ↦ rw missing _
    | inr (xs, there) ↦ rw there (Keyed-lookup _ a xs db.transactions_table h.transactions there)
  ]

  pub transaction-WellKeyed :
      (db : Database N) (tx : UserTransaction N) (d : Draw)
      → WellKeyed db
      → WellKeyed (record_transaction db tx d)
  unfolding record_transaction
  transaction-WellKeyed db tx d h =
      let own = push-AllOf _ tx _ refl (lists-own tx.user_address db h) in
      persist-WellKeyed d _ (record {
        users = h.users;
        portfolios = h.portfolios;
        transactions =
            Keyed-insert (λ k (xs : List (UserTransaction N)). AllOf (λ t. t.user_address ≡ k) xs)
              tx.user_address _ db.transactions_table own h.transactions;
        loyalties = h.loyalties;
      })
