-- ===== src/Server/Breaker.antt =====
-- frontend/server.js: the handlers of telemetry_data.json, `/api/trigger-cycle`,
-- `/api/simulate-shock` and `/api/reset-circuit-breaker`. The file is the state; a write that fails
-- is ignored, and leaves it as it was.
pub mod Recovery
use hikari.Prelude.{Bool, true, false, [], ◌∷◌, if◌then◌else◌}
use hikari.Prelude.Int.{pos}
use hikari.Prelude.Text.{String, ◌⊕◌, is_empty}
use hikari.Prelude.Number.{Number}
use hikari.Prelude.Except.{Except, ok, thrown}
use hikari.Prelude.Json.{
  Json, undefined, null, bool, num, str, arr, obj, Elems, nil, cons, Fields, object, field_of,
  put_field,
}
use hikari.Server.Http.{Response, FileState, holds, World, respond, read_json_safe}

-- `Array.isArray(v) ? v : []`, as elements
abbrev pub array_or_empty : {N : Type 0} → Json N → Elems N
array_or_empty (arr xs) = xs
array_or_empty _ = nil

-- The assignments to `current`, where it is an object: the breaker, the status, and a first log line.
unfoldable pub set_breaker : {N : Type 0} → Json N → String → String → Fields N → Fields N
set_breaker breaker status line fs =
    let marked = put_field "status" (str status) (put_field "circuitBreaker" breaker fs) in
    put_field "recentLogs" (arr (cons (str line) (array_or_empty (field_of "recentLogs" marked))))
      marked

module _ {n : Number} (w : World n) where
  open n use {Num, of_ℤ}

  unfoldable pub sealed_breaker : Json Num
  sealed_breaker = object (
      ("isGateSealed", bool true)
      ∷ ("isBunkerMode", bool true)
      ∷ ("haircutBps", num (of_ℤ (pos 1650)))
      ∷ ("drawdownBps", num (of_ℤ (pos 1650)))
      ∷ (
        "triggerReason",
        str "Critical Drawdown of 16.5% triggered GateSeal circuit breaker and Bunker Mode lock",
      )
      ∷ [])

  -- `triggerReason` is undefined, which `JSON.stringify` leaves out.
  unfoldable pub open_breaker : Json Num
  open_breaker = object (
      ("isGateSealed", bool false)
      ∷ ("isBunkerMode", bool false)
      ∷ ("haircutBps", num (of_ℤ (pos 0)))
      ∷ ("drawdownBps", num (of_ℤ (pos 150)))
      ∷ [])

  abbrev pub shock_line : String
  shock_line =
      "[" ⊕ w.iso_now
      ⊕ "] 🚨 [CRITICAL ALERT] Drawdown exceeded 15% threshold! GateSeal SEALED. Bunker Mode engaged."

  abbrev pub recovery_line : String
  recovery_line =
      "[" ⊕ w.iso_now
      ⊕ "] 🛡\u{fe0f} [RECOVERY] GateSeal unsealed by DAO timelock. Bunker Mode deactivated. Normal operations restored."

  -- What the assignments make of the value that was read. On an array they set properties that
  -- `JSON.stringify` leaves out; on null they throw, and on a text, a number or a Boolean they have
  -- no effect, so that `unshift` throws.
  unfoldable pub updated : Json Num → String → String → Json Num → Except (Json Num)
  updated breaker status line (obj fs) = ok (obj (set_breaker breaker status line fs))
  updated breaker status line (arr xs) = ok (arr xs)
  updated breaker status line _ = thrown w.type_error

  -- The file afterwards, and the response; `writable` is whether the write succeeds.
  unfoldable pub store_breaker :
      Bool → Json Num → String → String → FileState Num → FileState Num × Except (Response Num)
  store_breaker writable breaker status line stored =
      elim (updated breaker status line (read_json_safe stored)) [
        | thrown e ↦ (stored, thrown e)
        | ok current ↦ (
          if writable then holds current else stored,
          ok (respond 200 (object (("success", bool true) ∷ ("circuitBreaker", breaker) ∷ []))),
        )
      ]

  abbrev pub simulate_shock : Bool → FileState Num → FileState Num × Except (Response Num)
  simulate_shock writable = store_breaker writable sealed_breaker "SEALED" shock_line

  abbrev pub reset_circuit_breaker : Bool → FileState Num → FileState Num × Except (Response Num)
  reset_circuit_breaker writable = store_breaker writable open_breaker "ONLINE" recovery_line

  -- The daemon's output, and the file that it leaves.
  unfoldable pub trigger_cycle : String → FileState Num → Response Num
  trigger_cycle stdout stored = respond 200 (
      object (
        ("success", bool true)
        ∷ ("stdout", str (if is_empty stdout then "Cycle completed" else stdout))
        ∷ ("telemetry", read_json_safe stored)
        ∷ []))
