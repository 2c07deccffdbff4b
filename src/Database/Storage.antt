-- ===== src/Database/Storage.antt =====
-- services/database/src/db-client.ts: the constructor, `initializeStorage`, `persistState` and
-- `getHealth`. What JSON makes of the sync file is the host's `parse`; a file of another form counts as
-- one that cannot be read.
use mathlib.Core.Option
use hikari.Prelude.{
  ℕ, ◌+◌, Bool, true, false, not, ◌&&◌, List, [], ◌∷◌, ◌++◌, length, Option, none, some,
  if◌then◌else◌,
}
use hikari.Prelude.Int.{pos}
use hikari.Prelude.Text.{String, ◌⊕◌, starts_with, is_empty}
use hikari.Prelude.Dict.{Dict, insert, lookup}
use hikari.Prelude.Number.{Number}
use hikari.Database.Types.{
  Host, Mode, cloud_supabase_postgres, cloud_online_rest, encrypted_resilient_storage, UserProfile,
  UserPortfolio, UserTransaction, UserLoyalty, Snapshot, SyncFile, stringified, Database, Draw,
  DatabaseHealth,
}

-- `Array.from(map.values())`
unfoldable pub values {ℓ} : {V : Type ℓ} → Dict V → List V
values [] = []
values ((k, v) ∷ m) = v ∷ values m

-- The values of every inner map, or list, in turn.
unfoldable pub flat_values : Dict (Dict UserPortfolio) → List UserPortfolio
unfolding values
flat_values [] = []
flat_values ((k, m) ∷ ms) = values m ++ flat_values ms

unfoldable pub flat_lists {ℓ} : {V : Type ℓ} → Dict (List V) → List V
flat_lists [] = []
flat_lists ((k, xs) ∷ ms) = xs ++ flat_lists ms

-- `map.get(k)`, or an empty one
abbrev pub or_empty {ℓ} : {A : Type ℓ} → Option (List A) → List A
or_empty none = []
or_empty (some m) = m

-- a text that is there and not empty
abbrev pub is_given : Option String → Bool
is_given none = false
is_given (some s) = not (is_empty s)

abbrev pub is_postgres : Option String → Bool
is_postgres none = false
is_postgres (some url) = starts_with url "postgres"

unfoldable pub mode_of : Option String → Option String → Option String → Mode
mode_of db_url supabase_url supabase_key =
    if is_postgres db_url
    then cloud_supabase_postgres
    else if is_given supabase_url && is_given supabase_key
    then cloud_online_rest
    else encrypted_resilient_storage

unfoldable pub restore_portfolios :
    List UserPortfolio → Dict (Dict UserPortfolio) → Dict (Dict UserPortfolio)
restore_portfolios [] table = table
restore_portfolios (p ∷ ps) table =
    let held = or_empty (lookup p.user_address table) in
    restore_portfolios ps (insert p.user_address (insert p.vault_type p held) table)

unfoldable pub count_all {ℓ} : {V : Type ℓ} → Dict (List V) → ℕ
count_all [] = 0
count_all ((k, xs) ∷ m) = length xs + count_all m

abbrev pub or_blank : Option String → String
or_blank none = ""
or_blank (some s) = s

module _ {N : Type 0} where
  unfoldable pub restore_users : List (UserProfile N) → Dict (UserProfile N) → Dict (UserProfile N)
  restore_users [] table = table
  restore_users (u ∷ us) table = restore_users us (insert u.stellar_address u table)

  unfoldable pub restore_transactions :
      List (UserTransaction N) → Dict (List (UserTransaction N)) → Dict (List (UserTransaction N))
  restore_transactions [] table = table
  restore_transactions (t ∷ ts) table =
      let held = or_empty (lookup t.user_address table) in
      restore_transactions ts (insert t.user_address (held ++ t ∷ []) table)

  unfoldable pub restore_loyalty :
      List (UserLoyalty N) → Dict (UserLoyalty N) → Dict (UserLoyalty N)
  restore_loyalty [] table = table
  restore_loyalty (l ∷ ls) table = restore_loyalty ls (insert l.user_address l table)

  -- `initializeStorage`, on the tables that the constructor leaves empty
  unfoldable pub initialize_storage : Host N → Database N → Database N
  unfolding restore_users restore_portfolios restore_transactions restore_loyalty
  initialize_storage host db = elim db.sync_file [
    | none ↦ db
    | some content ↦ elim (host.parse content) [
      | none ↦ db
      | some raw ↦ record db {
        users_table = restore_users raw.users db.users_table;
        portfolios_table = restore_portfolios raw.portfolios db.portfolios_table;
        transactions_table = restore_transactions raw.transactions db.transactions_table;
        loyalty_table = restore_loyalty raw.loyalty db.loyalty_table;
      }
    ]
  ]

  unfoldable pub snapshot : Database N → String → Snapshot N
  unfolding values flat_values flat_lists
  snapshot db saved_at = record {
    updated_at = saved_at;
    mode = db.mode;
    users = values db.users_table;
    portfolios = flat_values db.portfolios_table;
    transactions = flat_lists db.transactions_table;
    loyalty = values db.loyalty_table;
  }

  -- `persistState`: a write that fails leaves the file.
  unfoldable pub persist_state : Draw → Database N → Database N
  persist_state d db =
      if d.can_write
      then record db { sync_file = some (stringified (snapshot db d.saved_at)) }
      else db

  abbrev mask : Host N → Option String → Option String → Option String → Option String
  mask h db_url supabase_url key =
      if is_given db_url
      then Option.map h.mask_password db_url
      else if is_given supabase_url
      then Option.map (λ url. url ⊕ " [Key: ****" ⊕ h.last_four (or_blank key) ⊕ "]") supabase_url
      else none

  unfoldable pub get_health : Host N → Database N → String → DatabaseHealth N
  unfolding count_all
  get_health h db now = record {
    mode = db.mode;
    is_connected = true;
    active_users_count = length db.users_table;
    total_transactions_count = count_all db.transactions_table;
    last_sync_timestamp = now;
    connection_string_masked = mask h db.db_url db.supabase_url db.supabase_key;
  }

-- `process.env.SUPABASE_SERVICE_ROLE_KEY || process.env.SUPABASE_ANON_KEY`
abbrev pub or_key : Option String → Option String → Option String
or_key a b = if is_given a then a else b

-- The constructor, from the environment and the sync file.
unfoldable pub new_database :
    (n : Number)
    → Host (Number.Num n)
    → (String → Option String)
    → Option (SyncFile (Number.Num n))
    → Database (Number.Num n)
unfolding mode_of
new_database n host env file =
    let key = or_key (env "SUPABASE_SERVICE_ROLE_KEY") (env "SUPABASE_ANON_KEY") in
    initialize_storage host (record {
      mode = mode_of (env "DATABASE_URL") (env "SUPABASE_URL") key;
      db_url = env "DATABASE_URL";
      supabase_url = env "SUPABASE_URL";
      supabase_key = key;
      users_table = [];
      portfolios_table = [];
      transactions_table = [];
      loyalty_table = [];
      last_known_ledger = n.of_ℤ (pos 4661344);
      sync_file = file;
    })
