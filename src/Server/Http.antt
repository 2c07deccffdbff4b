-- ===== src/Server/Http.antt =====
-- frontend/server.js: requests and responses, and what the server takes from its surroundings. The
-- Soroban reader, the Stellar SDK, `fetch`, the clock and JSON are arguments: the built files that
-- the server loads at run time, and the services that it calls. No object of a request gives itself a
-- `toString` or `valueOf`, so that `show` and `number_of` do not throw. A field of a response that is
-- undefined is one that `JSON.stringify` leaves out.
use hikari.Prelude.{ℕ, Bool, List, [], ◌∷◌, Option, if◌then◌else◌}
use hikari.Prelude.Int.{ℤ}
use hikari.Prelude.Text.{String, ◌==◌}
use hikari.Prelude.Number.{Number}
use hikari.Prelude.Except.{Except, ok, thrown, ◌>>=◌}
use hikari.Server.Services.{Services}
use hikari.Prelude.Json.{Json, null, str, object, get, is_nullish, or_else}

pub record Request : Type 0 where
  pub method : String
  pub pathname : String
  -- the query's parameters; `searchParams.get` gives the first of a name
  pub query : List (String × String)
  pub body : String
  -- `req.headers["x-forwarded-for"] || req.socket.remoteAddress || "127.0.0.1"`, and the user agent
  -- or "unknown", as text
  pub client_ip : String
  pub user_agent : String

pub data Body (N : Type 0) : Type 0 where
  empty : Body N
  json : Json N → Body N
  plain : String → Body N
  -- the bytes of a file, by its path
  file : String → Body N
  -- no bytes, and this `Content-Length`
  length_only : ℕ → Body N

pub record Response (N : Type 0) : Type 0 where
  pub status : ℕ
  pub content_type : String
  pub body : Body N

-- What a read of a JSON file finds.
pub data FileState (N : Type 0) : Type 0 where
  absent : FileState N
  unreadable : String → FileState N
  holds : Json N → FileState N

pub record OracleTelemetry (N : Type 0) : Type 0 where
  pub nav_stroops : ℤ
  pub apr_bps : N
  pub total_reserves : ℤ
  pub liquid_reserve_ratio_bps : N
  pub bunker_active : Bool
  pub proof_hash : String

pub record GovernanceConfig (N : Type 0) : Type 0 where
  pub admin : String
  pub hxlm_token : String
  pub quorum_bps : N
  pub veto_threshold_bps : N
  pub timelock_ledgers : N
  pub voting_period_ledgers : N

pub record Proposal (N : Type 0) : Type 0 where
  pub id : N
  pub creator : String
  pub title : String
  pub description_hash : String
  pub action_id : N
  pub param_value : ℤ
  pub start_ledger : N
  pub end_ledger : N
  pub eta_ledger : N
  pub for_votes : ℤ
  pub against_votes : ℤ
  pub abstain_votes : ℤ
  pub veto_votes : ℤ
  pub state : String

pub record GateSealStatus (N : Type 0) : Type 0 where
  pub is_sealed : Bool
  pub sealed_at_ledger : N
  pub duration_ledgers : N

-- The calls of `ContractReader` that the server makes.
pub record Reader (N : Type 0) : Type 0 where
  pub read_token_balance : String → String → Except ℤ
  pub read_withdrawal_request : String → ℕ → Except (Json N)
  pub read_vault_total_assets : String → Except ℤ
  pub read_vault_total_shares : String → Except ℤ
  pub read_oracle_telemetry : String → Except (OracleTelemetry N)
  pub read_gate_seal_status : String → Except (GateSealStatus N)
  pub simulate_call : String → String → Except (Json N)
  pub read_governance_config : String → Except (GovernanceConfig N)
  -- the contract's count is a `u32`
  pub read_governance_proposal_count : String → Except ℕ
  pub read_governance_proposal : String → ℕ → Except (Proposal N)

-- The Stellar SDK: an account, a transaction that calls a contract with an address and an amount.
pub record Sdk : Type 1 where
  pub Account : Type 0
  pub Transaction : Type 0
  pub get_account : String → Except Account
  pub build_call : Account → String → String → String → String → Except Transaction
  pub prepare_transaction : Transaction → Except Transaction
  pub to_xdr : Transaction → String

pub record World (n : Number) : Type 1 where
  pub parse_json : String → Except (Json n.Num)
  pub parse_float : Json n.Num → n.Num
  -- `Number(v)`, and a value in a template
  pub number_of : Json n.Num → n.Num
  pub show : Json n.Num → String
  pub show_ℤ : ℤ → String
  -- `BigInt` of a text or a number, which may throw
  pub big_int : Json n.Num → Except ℤ
  pub to_fixed : n.Num → ℕ → String
  pub to_upper : String → String
  pub max : n.Num → n.Num → n.Num
  pub abs : n.Num → n.Num
  pub pow : n.Num → n.Num → n.Num
  pub sqrt : n.Num → n.Num
  -- `parseInt(s)`, and `new Date(parseInt(s)).getTime()`
  pub parse_int : String → n.Num
  pub time_of : String → n.Num
  -- a member that every object inherits under this name (`toString`, `constructor`, …): what
  -- `JSON.stringify` and a template make of it
  pub inherited : String → Option (Json n.Num × String)
  -- the messages of the TypeError and the RangeError that the engine raises
  pub type_error : String
  pub range_error : String
  -- that of the error which `writeHead` raises where the head was already written
  pub headers_sent : String
  pub iso_now : String
  pub now_ms : n.Num
  -- `Math.random().toString(16).slice(2)`
  pub random_hex : String
  pub contracts_file : FileState n.Num
  -- `getContractReader()`
  pub reader : Option (Reader n.Num)
  pub sdk : Sdk
  -- the answer of the RPC endpoint to `sendTransaction` of a signed transaction, as JSON
  pub send_transaction : Json n.Num → Except (Json n.Num)
  pub services : Services n.Num

abbrev pub json_type : String
json_type = "application/json; charset=utf-8"

module _ {N : Type 0} where
  -- `res.writeHead(status, { "Content-Type": "application/json; charset=utf-8" })` and `res.end`
  abbrev pub respond : ℕ → Json N → Response N
  respond code v = record { status = code; content_type = json_type; body = json v }

  abbrev pub fail_with : ℕ → String → Response N
  fail_with code message = respond code (object (("error", str message) ∷ []))

  -- `searchParams.get(name)`
  abbrev pub find_param : String → List (String × String) → Json N
  find_param k [] = null
  find_param k ((j, v) ∷ q) = if j == k then str v else find_param k q

  -- `readJsonSafe(path, {})`, and the same reading where a handler writes it out
  abbrev pub read_json_safe : FileState N → Json N
  read_json_safe absent = object []
  read_json_safe (unreadable e) = object []
  read_json_safe (holds v) = v

module _ {n : Number} (w : World n) where
  -- `v.k`, which throws on null and undefined
  unfoldable pub property : String → Json n.Num → Except (Json n.Num)
  property k v = if is_nullish v then thrown w.type_error else ok (get k v)

  -- `raw.contracts?.name?.id || fallback`
  unfoldable pub contract_id : String → String → Except (Json n.Num)
  contract_id name fallback = do
    contracts ← property "contracts" (read_json_safe w.contracts_file)
    ok (or_else n (get "id" (get name contracts)) (str fallback))

  -- `JSON.parse(body || "{}")`
  unfoldable pub parse_body : String → Except (Json n.Num)
  parse_body body = w.parse_json (if body == "" then "{}" else body)
