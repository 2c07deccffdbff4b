-- ===== src/Database/Restart.antt =====
-- services/database/src/db-client.ts: a client that starts from the sync file finds what was persisted.
use hikari.Prelude.{
  ◌≡◌, refl, sym, ◌∙◌, true, List, [], ◌∷◌, ◌++◌, Option, none, some, arith, Bool-cases, inl, inr,
  if◌then◌else◌, ◌&&◌,
}
use mathlib.Core.List.{append-nil, append_assoc}
use hikari.Prelude.Text.{String, ◌==◌, eq_iff}
use hikari.Prelude.Dict.{Dict, lookup, insert, lookup-insert}
use hikari.Prelude.Number.{Number}
use hikari.Database.Types.{
  Host, UserProfile, UserPortfolio, UserTransaction, UserLoyalty, Database, Draw, stringified,
}
use hikari.Database.Storage.{
  or_empty, values, flat_values, flat_lists, restore_users, restore_portfolios,
  restore_transactions, restore_loyalty, initialize_storage, snapshot, persist_state, new_database,
}
use hikari.Database.Isolation.{Call, apply_calls}
use hikari.Database.Keyed.Calls.{apply_calls-WellKeyed}
use hikari.Database.Keyed.{Keyed, AllOf, WellKeyed}

-- the first, or else the second
abbrev pub first_of : {A : Type 0} → Option A → Option A → Option A
first_of (some a) other = some a
first_of none other = other

module _ {N : Type 0} where
  restore_users-values :
      (b : String) (t acc : Dict (UserProfile N))
      → Keyed (λ k (u : UserProfile N). u.stellar_address ≡ k) t
      → lookup b (restore_users (values t) acc) ≡ first_of (lookup b t) (lookup b acc)
  unfolding restore_users values lookup
  restore_users-values b [] acc h = refl
  restore_users-values b ((k, u) ∷ m) acc (own, once, rest) =
      let later = restore_users-values b m (insert u.stellar_address u acc) rest in
      let put = lookup-insert u.stellar_address b u acc in
      ground (arith, later, put, own, eq_iff k b, once)

  restore_transactions-append :
      (xs ys : List (UserTransaction N)) (acc : Dict (List (UserTransaction N)))
      → restore_transactions (xs ++ ys) acc ≡ restore_transactions ys (restore_transactions xs acc)
  unfolding restore_transactions
  restore_transactions-append [] ys acc = refl
  restore_transactions-append (x ∷ xs) ys acc = restore_transactions-append xs ys _

  restore_transactions-own :
      (b k : String) (xs : List (UserTransaction N)) (acc : Dict (List (UserTransaction N)))
      → AllOf (λ (t : UserTransaction N). t.user_address ≡ k) xs
      → or_empty (lookup b (restore_transactions xs acc))
        ≡ or_empty (lookup b acc) ++ (if k == b then xs else [])
  unfolding restore_transactions
  restore_transactions-own b k [] acc h = elim (Bool-cases (k == b)) [
    | inl same ↦ rw (same, append-nil) refl
    | inr other ↦ rw (other, append-nil) refl
  ]
  restore_transactions-own b k (x ∷ xs) acc (own, h) =
      let later =
        restore_transactions-own b k xs
          (insert x.user_address (or_empty (lookup x.user_address acc) ++ x ∷ []) acc) h in
      let put =
        lookup-insert x.user_address b (or_empty (lookup x.user_address acc) ++ x ∷ []) acc in
      elim (Bool-cases (k == b)) [
        | inl same ↦
            let at_b : x.user_address ≡ b = own ∙ (eq_iff k b).0 same in
            let assoc = append_assoc (or_empty (lookup b acc)) (x ∷ []) xs in
            grind (arith, later, put, same, at_b, assoc)
        | inr other ↦ ground (arith, later, put, own, other)
      ]

  restore_transactions-flat :
      (b : String) (t acc : Dict (List (UserTransaction N)))
      → Keyed (λ k (xs : List (UserTransaction N)). AllOf (λ t. t.user_address ≡ k) xs) t
      → or_empty (lookup b (restore_transactions (flat_lists t) acc))
        ≡ or_empty (lookup b acc) ++ or_empty (lookup b t)
  unfolding restore_transactions flat_lists lookup
  restore_transactions-flat b [] acc h = sym (append-nil _)
  restore_transactions-flat b ((k, xs) ∷ m) acc (own, once, rest) =
      let later = restore_transactions-flat b m (restore_transactions xs acc) rest in
      let here = restore_transactions-own b k xs acc own in
      rw (restore_transactions-append xs (flat_lists m) acc, later, here)
        (elim (Bool-cases (k == b)) [
          | inl same ↦
              let gone : lookup b m ≡ none = rw ((eq_iff k b).0 same) at once in
              rw (same, gone, append-nil) refl
          | inr other ↦ rw (other, append-nil) refl
        ])

  restore_loyalty-values :
      (b : String) (t acc : Dict (UserLoyalty N))
      → Keyed (λ k (l : UserLoyalty N). l.user_address ≡ k) t
      → lookup b (restore_loyalty (values t) acc) ≡ first_of (lookup b t) (lookup b acc)
  unfolding restore_loyalty values lookup
  restore_loyalty-values b [] acc h = refl
  restore_loyalty-values b ((k, l) ∷ m) acc (own, once, rest) =
      let later = restore_loyalty-values b m (insert l.user_address l acc) rest in
      let put = lookup-insert l.user_address b l acc in
      ground (arith, later, put, own, eq_iff k b, once)

-- the entry of an address in a vault
abbrev pub entry : String → String → Dict (Dict UserPortfolio) → Option UserPortfolio
entry b v t = lookup v (or_empty (lookup b t))

-- The portfolios of an address stand under it and their vaults.
abbrev InVaults : String → Dict UserPortfolio → Type 0
InVaults k m = Keyed (λ v (p : UserPortfolio). (p.user_address ≡ k) × (p.vault_type ≡ v)) m

entry-insert :
    (b v a u : String) (p : UserPortfolio) (t : Dict (Dict UserPortfolio))
    → entry b v (insert a (insert u p (or_empty (lookup a t))) t)
      ≡ (if (a == b) && (u == v) then some p else entry b v t)
entry-insert b v a u p t =
    let outer = lookup-insert a b (insert u p (or_empty (lookup a t))) t in
    let inner = lookup-insert u v p (or_empty (lookup a t)) in
    elim (Bool-cases (a == b)) [
      | inl same ↦ let at_b = (eq_iff a b).0 same in grind (arith, outer, inner, same, at_b)
      | inr other ↦ ground (arith, outer, other)
    ]

restore_portfolios-append :
    (ps qs : List UserPortfolio) (acc : Dict (Dict UserPortfolio))
    → restore_portfolios (ps ++ qs) acc ≡ restore_portfolios qs (restore_portfolios ps acc)
unfolding restore_portfolios
restore_portfolios-append [] qs acc = refl
restore_portfolios-append (p ∷ ps) qs acc = restore_portfolios-append ps qs _

restore_portfolios-values :
    (b v k : String) (m : Dict UserPortfolio) (acc : Dict (Dict UserPortfolio))
    → InVaults k m
    → entry b v (restore_portfolios (values m) acc)
      ≡ first_of (if k == b then lookup v m else none) (entry b v acc)
unfolding restore_portfolios values lookup
restore_portfolios-values b v k [] acc h = elim (Bool-cases (k == b)) [
  | inl same ↦ rw same refl
  | inr other ↦ rw other refl
]
restore_portfolios-values b v k ((u, p) ∷ m) acc ((own, vault), once, rest) =
    let a = p.user_address in
    let later =
      restore_portfolios-values b v k m
        (insert p.user_address (insert p.vault_type p (or_empty (lookup p.user_address acc))) acc)
        rest in
    let put = entry-insert b v p.user_address p.vault_type p acc in
    ground (arith, later, put, own, vault, eq_iff k b, eq_iff u v, once)

restore_portfolios-flat :
    (b v : String) (t acc : Dict (Dict UserPortfolio))
    → Keyed InVaults t
    → entry b v (restore_portfolios (flat_values t) acc) ≡ first_of (entry b v t) (entry b v acc)
unfolding restore_portfolios flat_values lookup
restore_portfolios-flat b v [] acc h = refl
restore_portfolios-flat b v ((k, m) ∷ ms) acc (own, once, rest) =
    let later = restore_portfolios-flat b v ms (restore_portfolios (values m) acc) rest in
    let here = restore_portfolios-values b v k m acc own in
    rw (restore_portfolios-append (values m) (flat_values ms) acc, later, here)
      (elim (Bool-cases (k == b)) [
        | inl same ↦
            let gone : lookup b ms ≡ none = rw ((eq_iff k b).0 same) at once in rw (same, gone) refl
        | inr other ↦ rw other refl
      ])

first_of-none : {A : Type 0} (o : Option A) → first_of o none ≡ o
first_of-none none = refl
first_of-none (some a) = refl

-- Both databases hold the same for the address.
abbrev pub Agree : {N : Type 0} → String → Database N → Database N → Type 0
Agree b db db' =
    (lookup b db'.users_table ≡ lookup b db.users_table)
    × ((v : String) → entry b v db'.portfolios_table ≡ entry b v db.portfolios_table)
    × (or_empty (lookup b db'.transactions_table) ≡ or_empty (lookup b db.transactions_table))
    × (lookup b db'.loyalty_table ≡ lookup b db.loyalty_table)

module _ (n : Number) (host : Host (Number.Num n)) (env : String → Option String) where
  open n use {Num}

  -- JSON gives back the payload that was written, as it does where every number in it is finite; it writes any
  -- other number as null.
  abbrev pub ReadsBack : Draw → Database Num → Type 0
  ReadsBack d db = host.parse (stringified (snapshot db d.saved_at)) ≡ some (snapshot db d.saved_at)

  restored :
      (db : Database Num) (d : Draw)
      → d.can_write ≡ true
      → ReadsBack d db
      → (let back = new_database n host env (persist_state d db).sync_file in
          (back.users_table ≡ restore_users (values db.users_table) [])
          × (back.portfolios_table ≡ restore_portfolios (flat_values db.portfolios_table) [])
          × (back.transactions_table ≡ restore_transactions (flat_lists db.transactions_table) [])
          × (back.loyalty_table ≡ restore_loyalty (values db.loyalty_table) []))
  unfolding persist_state new_database initialize_storage
  restored db d written read =
      rw (written, read, initialize_storage) (unfold snapshot in (refl, refl, refl, refl))

  persist_state-restart :
      (db : Database Num) (d : Draw)
      → d.can_write ≡ true
      → ReadsBack d db
      → WellKeyed db
      → (b : String) → Agree b db (new_database n host env (persist_state d db).sync_file)
  unfolding lookup
  persist_state-restart db d written read h b =
      let (users, portfolios, transactions, loyalties) = restored db d written read in
      rw (users, portfolios, transactions, loyalties)
        (
          restore_users-values b db.users_table [] h.users ∙ first_of-none _,
          λ v. restore_portfolios-flat b v db.portfolios_table [] h.portfolios ∙ first_of-none _,
          restore_transactions-flat b db.transactions_table [] h.transactions,
          restore_loyalty-values b db.loyalty_table [] h.loyalties ∙ first_of-none _,
        )

  -- After any calls, a client that starts from the sync file that `persistState` then wrote holds, for
  -- every address, the same profile, the same entry of each vault, the same transactions in their order
  -- and the same loyalty, where JSON gives back the payload that was written, and in the database
  -- before the calls each record stood under its own address (and vault) and no key stood twice.
  pub apply_calls-restart :
      (cs : List (Call Num)) (db : Database Num) (d : Draw)
      → d.can_write ≡ true
      → WellKeyed db
      → ReadsBack d (apply_calls n host cs db)
      → (b : String)
      → let db' = apply_calls n host cs db in
        Agree b db' (new_database n host env (persist_state d db').sync_file)
  apply_calls-restart cs db d written h read =
      persist_state-restart _ d written read (apply_calls-WellKeyed n host cs db h)
