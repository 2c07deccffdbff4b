-- ===== src/Server/Contracts.antt =====
-- frontend/server.js: `/api/contracts` and `/api/submit-tx`.
use hikari.Prelude.{true, not, [], ◌∷◌, if◌then◌else◌}
use hikari.Prelude.Text.{String, ◌⊕◌}
use hikari.Prelude.Number.{Number}
use hikari.Prelude.Except.{Except, ok, ◌>>=◌, catch}
use hikari.Prelude.Json.{Json, bool, str, object, get, truthy, or_else}
use hikari.Server.Http.{
  Request, Response, World, respond, fail_with, read_json_safe, property, parse_body,
}
use hikari.Server.Transactions.{default_vault, default_queue}
use hikari.Server.Telemetry.{default_oracle, default_gate_seal}

module _ {n : Number} (w : World n) where
  open n use {Num}

  -- `c.name?.id || fallback`
  abbrev id_or : Json Num → String → String → Json Num
  id_or c name fallback = or_else n (get "id" (get name c)) (str fallback)

  abbrev adapters_json : Json Num → Json Num
  adapters_json c = object (
      ("blend", id_or c "blendAdapter" "CDLG3GFOQ6WFVTFXQCW3ZSJMMMXIEQVEGZKMERS4ITBDZOHKXPRB5EAL")
      ∷ (
        "phoenix",
        id_or c "phoenixAdapter" "CAD345D2TCMIQEHSVVJMXOKMNGVVLW6YS7VBFSYXCRPALCOCDNA6O6L5",
      )
      ∷ (
        "soroswap",
        id_or c "soroswapAdapter" "CDPZLNOKPV4KMJ5RNT24RKK46BFEIJGTKRDZGVKOMZFSIKZQ6H5G5KJ3",
      )
      ∷ [])

  unfoldable pub contracts : Except (Response Num)
  contracts = do
    let deployed = read_json_safe w.contracts_file
    given ← property w "contracts" deployed
    let c = or_else n given (object [])
    ok (
        respond 200 (
          object (
            ("network", or_else n (get "network" deployed) (str "testnet"))
            ∷ ("vault", id_or c "vault" default_vault)
            ∷ (
              "shareToken",
              id_or c "token" "CA36LWOMIDPXFMVTQR6TODLSAO6QFNSYK6UBP5CS5MWGC2UHIDT23QLH",
            )
            ∷ (
              "strategyRegistry",
              id_or c "strategyRegistry" "CB7EOUYL5V22KCUK27LACLMDYDQMBCJMNQUWSALEGBEZXEK4LH76VZFQ",
            )
            ∷ (
              "policyAccount",
              id_or c "policyAccount" "CAPXDOMRO7U6XGOSNWKP6YBY7GMBRH7FPTYWTAW6CRGPMYIZHIJDO3UP",
            )
            ∷ ("withdrawalQueue", id_or c "withdrawalQueue" default_queue)
            ∷ ("oracle", id_or c "oracle" default_oracle)
            ∷ (
              "governance",
              id_or c "governance" "CA2MDYX7IIDD32KQGXIN6SRERI4ABVO3N37BLH7HKNFGTAI252VE7QID",
            )
            ∷ ("adapters", adapters_json c)
            ∷ ("gateSeal", id_or c "gateSeal" default_gate_seal)
            ∷ ("contracts", c)
            ∷ ("identities", or_else n (get "identities" deployed) (object []))
            ∷ [])))

  -- The answer to what the RPC endpoint returned; reading a field of null throws.
  unfoldable pub submission_answer : Json Num → Except (Response Num)
  submission_answer submitted = do
    error ← property w "error" submitted
    let result = get "result" submitted
    (if truthy n error
        then ok (
            respond 400 (
              object (
                ("error", or_else n (get "message" error) (str "Transaction submission failed"))
                ∷ ("details", error)
                ∷ [])))
        else ok (
            respond 200 (
              object (
                ("ok", bool true)
                ∷ ("txHash", or_else n (get "hash" result) (str ""))
                ∷ ("status", or_else n (get "status" result) (str "PENDING"))
                ∷ ("result", result)
                ∷ []))))

  -- the `try` of the handler
  unfoldable pub submit_attempt : Request → Except (Response Num)
  submit_attempt req = do
    payload ← parse_body w req.body
    signed_xdr ← property w "signedXdr" payload
    (if not (truthy n signed_xdr)
        then ok (fail_with 400 "Missing signedXdr in request body")
        else (w.send_transaction signed_xdr >>= submission_answer))

  unfoldable pub submit_tx : Request → Response Num
  submit_tx req =
      catch (submit_attempt req)
        λ message. fail_with 500 ("Transaction submission failed: " ⊕ message)
