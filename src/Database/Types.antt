-- ===== src/Database/Types.antt =====
-- services/database/src/db-client.ts: the tables of `HikariDatabaseClient`, and what it takes from its
-- host. Numbers are JavaScript's, of type N.
use hikari.Prelude.{ℕ, Bool, List, Option}
use hikari.Prelude.Int.{ℤ}
use hikari.Prelude.Text.{String}
use hikari.Prelude.Dict.{Dict}
use hikari.Prelude.Json.{Json, Fields}

pub data Mode : Type 0 where
  cloud_supabase_postgres cloud_online_rest encrypted_resilient_storage : Mode

pub record UserProfile (N : Type 0) : Type 0 where
  pub id : String
  pub stellar_address : String
  pub created_at : String
  pub last_active_at : String
  pub risk_profile : String
  pub preferences : Fields N
  pub referred_by : Option String
  pub kyc_tier : String

pub record UserPortfolio : Type 0 where
  pub id : String
  pub user_address : String
  pub vault_type : String
  pub deposited_stroops : String
  pub h_shares_balance : String
  pub cost_basis_stroops : String
  pub yield_earned_stroops : String
  pub updated_at : String

pub record UserTransaction (N : Type 0) : Type 0 where
  pub id : String
  pub user_address : String
  pub tx_hash : String
  pub action : String
  pub vault_type : String
  pub amount_stroops : String
  pub shares_delta : String
  pub status : String
  pub ledger_sequence : N
  pub timestamp : String

pub record UserLoyalty (N : Type 0) : Type 0 where
  pub user_address : String
  pub total_shards : N
  pub rank : N
  pub tier : String
  pub multiplier : N
  pub badges : List String

-- The payload of the sync file.
pub record Snapshot (N : Type 0) : Type 0 where
  pub updated_at : String
  pub mode : Mode
  pub users : List (UserProfile N)
  pub portfolios : List UserPortfolio
  pub transactions : List (UserTransaction N)
  pub loyalty : List (UserLoyalty N)

-- The sync file holds the text that `JSON.stringify` gave of a payload, or any other text.
pub data SyncFile (N : Type 0) : Type 0 where
  stringified : Snapshot N → SyncFile N
  other_text : String → SyncFile N

pub record Host (N : Type 0) : Type 0 where
  -- `BigInt(s)`: a text that is no integer raises (`none`)
  pub big_int : String → Option ℤ
  -- the message of the SyntaxError that it raises
  pub syntax_error : String
  pub show_ℤ : ℤ → String
  -- the fields that `{...v}` copies of a value that is no object made of fields
  pub spread_other : Json N → Fields N
  -- `url.replace(/:[^:]*@/, ":****@")`, and `s.slice(-4)`
  pub mask_password : String → String
  pub last_four : String → String
  -- `JSON.parse` of the content of the sync file, where it gives something of the form of a Snapshot; a list
  -- that is missing stands as an empty one
  pub parse : SyncFile N → Option (Snapshot N)

-- `HikariDatabaseClient`, with its sync file (`none` where there is no file).
pub record Database (N : Type 0) : Type 0 where
  pub mode : Mode
  pub db_url : Option String
  pub supabase_url : Option String
  pub supabase_key : Option String
  pub users_table : Dict (UserProfile N)
  pub portfolios_table : Dict (Dict UserPortfolio)
  pub transactions_table : Dict (List (UserTransaction N))
  pub loyalty_table : Dict (UserLoyalty N)
  pub last_known_ledger : N
  pub sync_file : Option (SyncFile N)

-- What one call draws: the identifiers, the times, and whether the sync file can be written.
pub record Draw : Type 0 where
  pub uuid : String
  pub tx_uuid : String
  pub now : String
  pub later : String
  pub tx_time : String
  pub saved_at : String
  pub can_write : Bool

-- `clientDefaults` of `getOrCreateUserProfile`; undefined is `none`.
pub record ClientDefaults : Type 0 where
  pub risk_profile : Option String
  pub theme : Option String
  pub currency : Option String
  pub notifications_enabled : Option Bool
  pub telegram_alerts : Option Bool
  pub discord_alerts : Option Bool
  pub referred_by : Option String

pub record DatabaseHealth (N : Type 0) : Type 0 where
  pub mode : Mode
  pub is_connected : Bool
  pub active_users_count : ℕ
  pub total_transactions_count : ℕ
  pub last_sync_timestamp : String
  pub connection_string_masked : Option String
