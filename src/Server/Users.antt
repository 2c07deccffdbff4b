-- ===== src/Server/Users.antt =====
-- frontend/server.js: `/api/v1/user/profile`, `portfolio`, `history`, `deposit-record` and
-- `/api/v1/db/health`. `thrown` is an error outside a `try`, after which no response is sent.
use hikari.Prelude.{
  ℕ, zero, suc, ◌-◌, true, false, not, List, [], ◌∷◌, map, none, some, if◌then◌else◌,
}
use hikari.Prelude.Text.{String, ◌⊕◌, utf16_length}
use hikari.Prelude.Number.{Number}
use hikari.Prelude.Except.{Except, ok, thrown}
use hikari.Prelude.Json.{Json, null, bool, num, str, object, array, truthy, get, or_else}
use hikari.Database.Types.{
  Host, Mode, cloud_supabase_postgres, cloud_online_rest, encrypted_resilient_storage,
  UserPortfolio, UserTransaction, Database, Draw, DatabaseHealth,
}
use hikari.Database.Storage.{get_health}
use hikari.Database.Profiles.{update_user_preferences}
use hikari.Database.Booking.{get_user_portfolio, get_user_transactions, record_deposit}
use hikari.Server.Http.{
  Request, Response, World, respond, fail_with, find_param, property, parse_body,
}
use hikari.Server.Replies.{refused_json, State, handle, opt_text, profile_json, int_json}
use hikari.Server.Sessions.{load_profile}

abbrev pub mode_name : Mode → String
mode_name cloud_supabase_postgres = "CLOUD_SUPABASE_POSTGRES"
mode_name cloud_online_rest = "CLOUD_ONLINE_REST"
mode_name encrypted_resilient_storage = "ENCRYPTED_RESILIENT_STORAGE"

abbrev zeros : ℕ → String
zeros zero = ""
zeros (suc k) = "0" ⊕ zeros k

-- `s.padEnd(width, "0")`
unfoldable pub pad_end : ℕ → String → String
pad_end width s = s ⊕ zeros (width - utf16_length s)

abbrev pub portfolio_json : {N : Type 0} → UserPortfolio → Json N
portfolio_json p = object (
    ("id", str p.id)
    ∷ ("userAddress", str p.user_address)
    ∷ ("vaultType", str p.vault_type)
    ∷ ("depositedStroops", str p.deposited_stroops)
    ∷ ("hSharesBalance", str p.h_shares_balance)
    ∷ ("costBasisStroops", str p.cost_basis_stroops)
    ∷ ("yieldEarnedStroops", str p.yield_earned_stroops)
    ∷ ("updatedAt", str p.updated_at)
    ∷ [])

abbrev pub transaction_json : {N : Type 0} → UserTransaction N → Json N
transaction_json t = object (
    ("id", str t.id)
    ∷ ("userAddress", str t.user_address)
    ∷ ("txHash", str t.tx_hash)
    ∷ ("action", str t.action)
    ∷ ("vaultType", str t.vault_type)
    ∷ ("amountStroops", str t.amount_stroops)
    ∷ ("sharesDelta", str t.shares_delta)
    ∷ ("status", str t.status)
    ∷ ("ledgerSequence", num t.ledger_sequence)
    ∷ ("timestamp", str t.timestamp)
    ∷ [])

module _ (n : Number) where
  open n use {Num}

  abbrev pub missing_address : Response Num
  missing_address = fail_with 400 "Missing address query parameter"

  abbrev pub health_json : DatabaseHealth Num → Json Num
  health_json h = object (
      ("mode", str (mode_name h.mode))
      ∷ ("isConnected", bool h.is_connected)
      ∷ ("activeUsersCount", int_json n h.active_users_count)
      ∷ ("totalTransactionsCount", int_json n h.total_transactions_count)
      ∷ ("lastSyncTimestamp", str h.last_sync_timestamp)
      ∷ ("connectionStringMasked", opt_text h.connection_string_masked)
      ∷ [])

  unfoldable pub db_health : Host Num → State Num → String → Response Num
  db_health host st now = respond 200 (elim st.database [
    | none ↦ object (("mode", str "UNINITIALIZED") ∷ ("isConnected", bool false) ∷ [])
    | some db ↦ health_json (get_health host db now)
  ])

  -- the profile of the address; its error leaves the handler
  unfoldable pub show_profile :
      State Num → Json Num → String → Draw → State Num × Except (Response Num)
  unfolding load_profile
  show_profile st address name d =
      let (db', r) = load_profile n st.database name d in
      if not (truthy n address) then (st, ok missing_address) else (
        record st { database = db' },
        handle r (λ e. thrown e)
            λ user.
              ok (
                respond 200 (object (("success", bool true) ∷ ("user", profile_json n user) ∷ []))),
      )

  -- `parsedUrl.searchParams.get("address")` where it is there
  abbrev pub with_address : Request → (Json Num → Response Num) → Response Num
  with_address req answer =
      let address = find_param "address" req.query in
      if not (truthy n address) then missing_address else answer address

  abbrev list_answer : Json Num → String → List (Json Num) → Response Num
  list_answer address name items =
      respond 200
        (object (("success", bool true) ∷ ("userAddress", address) ∷ (name, array items) ∷ []))

module _ {n : Number} (host : Host n.Num) (w : World n) where
  open n use {Num}

  unfoldable pub get_profile : State Num → Request → Draw → State Num × Except (Response Num)
  unfolding show_profile
  get_profile st req d =
      let address = find_param "address" req.query in show_profile n st address (w.show address) d

  unfoldable pub user_portfolio : State Num → Request → Draw → Response Num
  user_portfolio st req d = with_address n req λ address.
      list_answer n address "portfolios" (elim st.database [
        | none ↦ []
        | some db ↦ map portfolio_json (get_user_portfolio db (w.show address) d)
      ])

  unfoldable pub user_history : State Num → Request → Response Num
  user_history st req = with_address n req λ address.
      list_answer n address "transactions" (elim st.database [
        | none ↦ []
        | some db ↦ map transaction_json (get_user_transactions db (w.show address) 20)
      ])

  -- The preferences of an address. One that is no text has no `startsWith`.
  unfoldable pub update_profile : State Num → Json Num → Json Num → Draw → State Num × Response Num
  update_profile st address updates d =
      let answer =
        λ (user : Json Num). respond 200 (object (("success", bool true) ∷ ("user", user) ∷ [])) in
      elim st.database [
        | none ↦ (st, answer null)
        | some db ↦ elim address [
          | str name ↦
              let (db', r) = update_user_preferences host db name updates d in
              (
                record st { database = some db' },
                handle r (λ e. refused_json 400 e) λ user. answer (profile_json n (some user)),
              )
          | _ ↦ (st, refused_json 400 w.type_error)
        ]
      ]

  unfoldable pub put_profile : State Num → Request → Draw → State Num × Response Num
  unfolding update_profile
  put_profile st req d =
      handle (parse_body w req.body) (λ e. (st, refused_json 400 e))
        λ payload.
          handle (property w "stellarAddress" payload) (λ e. (st, refused_json 400 e))
            λ given.
              let target = or_else n given (find_param "address" req.query) in
              if not (truthy n target)
              then (st, refused_json 400 "Missing stellar address")
              else update_profile st target (or_else n (get "preferences" payload) (object [])) d

  -- An address, vault type or hash of the payload that is no text stands here as its text.
  abbrev text_or : String → Json Num → String → String
  text_or name payload other = w.show (or_else n (get name payload) (str other))

  unfoldable pub book : Database Num → Json Num → Draw → Database Num × Except UserPortfolio
  unfolding pad_end
  book db payload d =
      record_deposit n host db (w.show (get "stellarAddress" payload))
        (text_or "vaultType" payload "EARN_XLM") (text_or "amountStroops" payload "10000000")
        (text_or "sharesReceived" payload "10000000")
        (text_or "txHash" payload ("0x" ⊕ pad_end 64 w.random_hex)) none d

  unfoldable pub deposit_record : State Num → Request → Draw → State Num × Response Num
  unfolding book
  deposit_record st req d =
      handle (parse_body w req.body) (λ e. (st, refused_json 400 e))
        λ payload. elim st.database [
          | none ↦ (st, refused_json 400 "Database offline")
          | some db ↦
              handle (property w "stellarAddress" payload) (λ e. (st, refused_json 400 e))
                λ given.
                  let (db', r) = book db payload d in
                  (
                    record st { database = some db' },
                    handle r (λ e. refused_json 400 e)
                        λ p.
                          respond 200 (
                            object (("success", bool true) ∷ ("portfolio", portfolio_json p) ∷ [])),
                  )
        ]
