-- ===== src/Server/Transactions.antt =====
-- frontend/server.js: `/api/token-balance`, `/api/build-deposit`, `/api/build-withdraw`.
use hikari.Prelude.{Bool, not, ◌||◌, [], ◌∷◌, if◌then◌else◌}
use hikari.Prelude.Int.{pos}
use hikari.Prelude.Text.{String, ◌⊕◌}
use hikari.Prelude.Number.{Number}
use hikari.Prelude.Except.{Except, ok, ◌>>=◌, catch, or_throw}
use hikari.Prelude.Json.{Json, bool, num, str, object, get, truthy, or_else}
use hikari.Server.Http.{
  Request, Response, World, respond, fail_with, find_param, property, contract_id, parse_body,
}

-- the addresses that stand in for what deployed_contracts.json does not hold
abbrev pub default_vault : String
default_vault = "CCR6NFKICAK4KW2SVKU4UESG5SR6RMYRVUDDO6K7BB6NUWYSMGQS5KT5"

abbrev pub default_queue : String
default_queue = "CBTICEQ2OQ5KTCCWPYT4Q3SROZORZCJBSHR2J4RSGI5TESKWEW34TOXQ"

module _ {n : Number} (w : World n) where
  open n use {Num, of_ℤ, to_ℤ, mul, div, floor}

  abbrev pub ten_million : Num
  ten_million = of_ℤ (pos 10_000_000)

  -- the `try` of the token-balance query
  read_balance : Json Num → Json Num → Except (Response Num)
  read_balance address token_id = do
    reader ← or_throw w.reader "ContractReader not available"
    balance ← reader.read_token_balance (w.show token_id) (w.show address)
    ok (
        respond 200 (
          object (
            ("balance", num (div (of_ℤ balance) ten_million))
            ∷ ("balanceStroops", str (w.show_ℤ balance))
            ∷ ("address", address)
            ∷ ("token", token_id)
            ∷ [])))

  unfoldable pub token_balance : Request → Response Num
  unfolding read_balance
  token_balance req =
      let address = find_param "address" req.query in
      let token_id = or_else n (find_param "token" req.query) (find_param "contractId" req.query) in
      if not (truthy n address) || not (truthy n token_id)
      then fail_with 400 "Missing address or token parameter"
      else catch (read_balance address token_id) λ message. respond 503 (
          object (
            ("error", str ("Token balance read failed: " ⊕ message))
            ∷ ("balance", num (of_ℤ (pos 0)))
            ∷ ("address", address)
            ∷ ("token", token_id)
            ∷ []))

  -- `BigInt(Math.floor(parseFloat(amount) * 1e7)).toString()`
  unfoldable pub to_stroops : Json Num → Except String
  to_stroops amount = do
    stroops ← or_throw (to_ℤ (floor (mul (w.parse_float amount) ten_million))) w.range_error
    ok (w.show_ℤ stroops)

  -- `given || rawContracts.contracts?.name?.id || fallback`
  unfoldable pub target_contract : Json Num → String → String → Except (Json Num)
  target_contract given name fallback =
      if truthy n given then ok given else contract_id w name fallback

  -- the account, the invocation, its preparation and its XDR
  unfoldable pub invocation_xdr : Json Num → String → Json Num → String → Except String
  invocation_xdr target function_name user stroops = do
    account ← w.sdk.get_account (w.show user)
    tx ← w.sdk.build_call account (w.show target) function_name (w.show user) stroops
    prepared ← w.sdk.prepare_transaction tx
    ok (w.sdk.to_xdr prepared)

  deposit_steps : Json Num → Json Num → Json Num → Except (Response Num)
  deposit_steps user amount vault_id = do
    target_vault ← target_contract vault_id "vault" default_vault
    stroops ← to_stroops amount
    xdr ← invocation_xdr target_vault "deposit" user stroops
    ok (
        respond 200 (
          object (
            ("ok", bool Bool.true)
            ∷ ("status", str "AWAITING_SIGNATURE")
            ∷ ("requiresSignature", bool Bool.true)
            ∷ ("vaultId", target_vault)
            ∷ ("userAddress", user)
            ∷ ("amountXlm", amount)
            ∷ ("amountStroops", str stroops)
            ∷ ("transactionXdr", str xdr)
            ∷ (
              "instructions",
              str "Sign transactionXdr with Freighter wallet and submit to /api/submit-tx",
            )
            ∷ [])))

  -- the `try` of the handler
  deposit_attempt : Request → Except (Response Num)
  deposit_attempt req = do
    payload ← parse_body w req.body
    user ← property w "userAddress" payload
    let amount = get "amountXlm" payload
    (if not (truthy n user) || not (truthy n amount)
        then ok (fail_with 400 "Missing userAddress or amountXlm")
        else deposit_steps user amount (get "vaultId" payload))

  unfoldable pub build_deposit : Request → Response Num
  unfolding deposit_attempt deposit_steps
  build_deposit req =
      catch (deposit_attempt req) λ message. fail_with 400 ("Build deposit failed: " ⊕ message)

  withdraw_steps : Json Num → Json Num → Json Num → Except (Response Num)
  withdraw_steps user shares queue_id = do
    target_queue ← target_contract queue_id "withdrawalQueue" default_queue
    stroops ← to_stroops shares
    xdr ← invocation_xdr target_queue "request_withdrawal" user stroops
    ok (
        respond 200 (
          object (
            ("ok", bool Bool.true)
            ∷ ("status", str "AWAITING_SIGNATURE")
            ∷ ("requiresSignature", bool Bool.true)
            ∷ ("queueId", target_queue)
            ∷ ("userAddress", user)
            ∷ ("sharesAmount", shares)
            ∷ ("sharesStroops", str stroops)
            ∷ ("transactionXdr", str xdr)
            ∷ (
              "instructions",
              str "Sign transactionXdr with Freighter wallet and submit to /api/submit-tx",
            )
            ∷ [])))

  withdraw_attempt : Request → Except (Response Num)
  withdraw_attempt req = do
    payload ← parse_body w req.body
    user ← property w "userAddress" payload
    let shares = get "sharesAmount" payload
    (if not (truthy n user) || not (truthy n shares)
        then ok (fail_with 400 "Missing userAddress or sharesAmount")
        else withdraw_steps user shares (get "queueId" payload))

  unfoldable pub build_withdraw : Request → Response Num
  unfolding withdraw_attempt withdraw_steps
  build_withdraw req =
      catch (withdraw_attempt req) λ message. fail_with 400 ("Build withdraw failed: " ⊕ message)
