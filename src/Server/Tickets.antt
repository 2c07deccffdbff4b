-- ===== src/Server/Tickets.antt =====
-- frontend/server.js: `/api/withdrawal-tickets`, the requests 1 to 20 that belong to an address.
pub mod Exact
use Prim.Native.String.{find}
use text.Mathlib.Text.{find?}
use hikari.Prelude.{
  ℕ, zero, suc, ◌+◌, Bool, true, false, not, ◌&&◌, List, [], ◌∷◌, map, Option, none, some,
  if◌then◌else◌,
}
use hikari.Prelude.Int.{pos}
use hikari.Prelude.Text.{String, ◌==◌}
use hikari.Prelude.Number.{Number}
use hikari.Prelude.Except.{Except, ok, thrown, ◌>>=◌, catch}
use hikari.Prelude.Json.{Json, bool, num, str, undefined, object, array, get, truthy, or_else}
use hikari.Server.Http.{
  Request, Response, Reader, World, respond, fail_with, find_param, property, read_json_safe,
}

pub record Ticket (N : Type 0) : Type 0 where
  pub id : ℕ
  pub shares : N
  pub claimable_xlm : N
  pub ticket_status : String

-- `message.includes("…")` of the error that a missing request raises
unfoldable pub is_missing_request : String → Bool
is_missing_request message = elim (find? message "simulation did not return a success result") [
  | none ↦ false
  | some i ↦ true
]

-- `v === s`
abbrev pub is_text : {N : Type 0} → String → Json N → Bool
is_text s (str t) = t == s
is_text s _ = false

module _ {n : Number} (w : World n) where
  open n use {Num, of_ℤ, div}

  unfoldable pub is_owned : String → Json Num → Bool
  is_owned address request = truthy n request && is_text address (get "user" request)

  unfoldable pub ticket : ℕ → Json Num → Ticket Num
  ticket i request =
      let ten_million = of_ℤ (pos 10_000_000) in
      record {
        id = i;
        shares = div (w.number_of (get "shares" request)) ten_million;
        claimable_xlm =
            div (w.number_of (or_else n (get "amount" request) (num (of_ℤ (pos 0))))) ten_million;
        ticket_status = if truthy n (get "ready" request) then "ready" else "pending";
      }

  -- The loop over the request numbers, by the rounds left. It goes on past an error, but for the one
  -- of a number that was never used.
  unfoldable pub collect : (ℕ → Except (Json Num)) → String → ℕ → ℕ → List (Ticket Num)
  collect read address i zero = []
  collect read address i (suc rounds) =
      let rest = collect read address (i + 1) rounds in
      elim (read i) [
        | ok request ↦ if is_owned address request then ticket i request ∷ rest else rest
        | thrown message ↦ if is_missing_request message then [] else rest
      ]

  abbrev pub ticket_json : Ticket Num → Json Num
  ticket_json t = object (
      ("id", num (of_ℤ (pos t.id)))
      ∷ ("shares", num t.shares)
      ∷ ("claimableXlm", num t.claimable_xlm)
      ∷ ("status", str t.ticket_status)
      ∷ [])

  -- `CONTRACTS?.contracts?.withdrawalQueue?.id`
  unfoldable pub queue_id : Json Num
  queue_id = get "id" (get "withdrawalQueue" (get "contracts" (read_json_safe w.contracts_file)))

  unfoldable pub tickets_of : String → List (Ticket Num)
  unfolding queue_id
  tickets_of address = elim w.reader [
    | none ↦ []
    | some reader ↦
        if truthy n queue_id
        then collect (reader.read_withdrawal_request (w.show queue_id)) address 1 20
        else []
  ]

  unfoldable pub withdrawal_tickets : Request → Response Num
  withdrawal_tickets req =
      let address = find_param "address" req.query in
      if not (truthy n address)
      then fail_with 400 "Missing address parameter"
      else respond 200 (
          object (
            ("ok", bool true)
            ∷ ("address", address)
            ∷ ("tickets", array (map ticket_json (tickets_of (w.show address))))
            ∷ []))
