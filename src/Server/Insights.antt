-- ===== src/Server/Insights.antt =====
-- frontend/server.js: `/api/health`, `/api/points`, `/api/leaderboard`, `/api/v1/social/…`,
-- `/api/v1/solvency/proof` and `/api/v1/telegram/command`, which hand on what a service answers.
use hikari.Prelude.{true, ◌||◌, List, [], ◌∷◌, if◌then◌else◌}
use hikari.Prelude.Int.{pos}
use hikari.Prelude.Text.{String, ◌⊕◌, ◌==◌, is_empty, split}
use hikari.Prelude.Number.{Number}
use hikari.Prelude.Except.{Except, ok, thrown, ◌>>=◌, catch, or_throw}
use hikari.Prelude.Json.{
  Json, null, bool, num, str, obj, object, array, get, put_field, truthy, or_else,
}
use hikari.Server.Http.{
  Request, Response, World, respond, fail_with, find_param, property, parse_body, read_json_safe,
}

abbrev last_or : String → List String → String
last_or d [] = d
last_or d (s ∷ ss) = last_or s ss

-- `path.split("/").pop()`
unfoldable pub last_segment : String → String
last_segment path = last_or "" (split b'/' path)

module _ {n : Number} (w : World n) where
  open n use {Num, of_ℤ, div}

  unfoldable pub health : Response Num
  health = respond 200 (
      object (
        ("status", str "HEALTHY")
        ∷ ("timestamp", str w.iso_now)
        ∷ ("database", str "ONLINE")
        ∷ ("protocol", str "HIKARI")
        ∷ []))

  -- `rawContracts.contracts?.name?.id`, which must be there
  unfoldable pub configured : String → String → Except (Json Num)
  configured name missing = do
    contracts ← property w "contracts" (read_json_safe w.contracts_file)
    let id = get "id" (get name contracts)
    (if truthy n id then ok id else thrown missing)

  -- the `try` of the points profile; `{...profile, sourcedFromRealBalance, realHxlmBalance}`
  unfoldable pub points_attempt : String → Except (Response Num)
  unfolding configured
  points_attempt address = do
    engine ← w.services.points_engine
    reader ← or_throw w.reader "ContractReader not available"
    token ← configured "token" "hXLM token contract id not configured"
    balance ← reader.read_token_balance (w.show token) address
    let real = div (of_ℤ balance) (of_ℤ (pos 10_000_000))
    profile ← engine.get_user_profile address real "BALANCED_HXLM"
    ok (
        respond 200 (
          obj (
            put_field "realHxlmBalance" (num real)
              (put_field "sourcedFromRealBalance" (bool true) profile))))

  unfoldable pub points : Request → Response Num
  unfolding points_attempt last_segment
  points req =
      let address = last_segment req.pathname in
      if is_empty address || address == "points"
      then fail_with 400 "Missing user address"
      else catch (points_attempt address) λ message. respond 503 (
          object (
            (
              "error",
              str ("Points profile unavailable (could not read real on-chain balance): " ⊕ message),
            )
            ∷ ("userAddress", str address)
            ∷ []))

  -- a call of a service that has a plain answer for any failure
  abbrev or_answer : Except (Json Num) → Json Num → Response Num
  or_answer (ok v) other = respond 200 v
  or_answer (thrown e) other = respond 200 other

  abbrev under : String → Except (Json Num) → Except (Json Num)
  under name r = r >>= λ v. ok (object ((name, v) ∷ []))

  abbrev empty_under : String → Json Num
  empty_under name = object ((name, array []) ∷ [])

  unfoldable pub leaderboard : Response Num
  leaderboard =
      or_answer
        (under "leaderboard" (w.services.points_engine >>= λ engine. engine.get_leaderboard))
        (empty_under "leaderboard")

  -- The head is written before the gateway is called: an error of that call ends in a second `writeHead`, which
  -- throws in the `catch`, and no reply is sent.
  unfoldable pub after_head : Except (Json Num) → Except (Response Num)
  after_head (ok v) = ok (respond 200 v)
  after_head (thrown e) = thrown w.headers_sent

  unfoldable pub social_status : Except (Response Num)
  unfolding after_head
  social_status = elim w.services.social_gateway [
    | thrown e ↦ ok (
        respond 200 (
          object (
            ("service", str "Hakiru Social Gateway")
            ∷ ("status", str "ONLINE")
            ∷ (
              "channels",
              object (
                  ("telegram", str "SANDBOX_SIMULATOR")
                  ∷ ("discord", str "SANDBOX_SIMULATOR")
                  ∷ ("twitter", str "SANDBOX_SIMULATOR")
                  ∷ []),
            )
            ∷ [])))
    | ok gateway ↦ after_head gateway.get_status
  ]

  unfoldable pub social_feed : Except (Response Num)
  unfolding after_head
  social_feed = elim w.services.social_gateway [
    | thrown e ↦ ok (respond 200 (empty_under "feed"))
    | ok gateway ↦ after_head (under "feed" gateway.get_feed)
  ]

  unfoldable pub social_leaderboard : Except (Response Num)
  unfolding after_head
  social_leaderboard = elim w.services.social_gateway [
    | thrown e ↦ ok (respond 200 (empty_under "leaderboard"))
    | ok gateway ↦ after_head (under "leaderboard" gateway.get_leaderboard)
  ]

  -- The `try` of the solvency report. The two reads run at once; where both fail, the message is that
  -- of the first here.
  unfoldable pub solvency_attempt : Request → Except (Response Num)
  unfolding configured
  solvency_attempt req = do
    new_engine ← w.services.solvency_engine
    reader ← or_throw w.reader "ContractReader not available"
    vault ← configured "vault" "Vault contract id not configured"
    let raw = read_json_safe w.contracts_file
    reserves ← reader.read_vault_total_assets (w.show vault)
    let horizon = or_else n (get "horizonUrl" raw) (str "https://horizon-testnet.stellar.org")
    root ← w.services.horizon_root (w.show horizon ⊕ "/")
    ledger ← property w "history_latest_ledger" root
    engine ←
        new_engine (div (of_ℤ reserves) (of_ℤ (pos 10_000_000)))
          (or_else n ledger (num (of_ℤ (pos 0))))
    report ← engine.generate_solvency_report
    let address = find_param "address" req.query
    proof ← (if truthy n address then engine.get_inclusion_proof (w.show address) else ok null)
    ok (respond 200 (object (("report", report) ∷ ("userProof", proof) ∷ [])))

  unfoldable pub solvency_proof : Request → Response Num
  unfolding solvency_attempt
  solvency_proof req = catch (solvency_attempt req) λ message. respond 503 (
      object (
        (
          "error",
          str (
              "Solvency report unavailable (could not read real on-chain reserves/ledger): "
              ⊕ message),
        )
        ∷ ("report", null)
        ∷ ("userProof", null)
        ∷ []))

  unfoldable pub telegram_attempt : Request → Except (Response Num)
  telegram_attempt req = do
    payload ← parse_body w req.body
    bot ← w.services.telegram_bot
    command ← property w "command" payload
    response ← bot (or_else n command (str "/stats")) (get "address" payload)
    ok (
        respond 200
          (object (("success", bool true) ∷ ("command", command) ∷ ("response", response) ∷ [])))

  unfoldable pub telegram_command : Request → Response Num
  unfolding telegram_attempt
  telegram_command req = catch (telegram_attempt req) λ message. fail_with 400 message
