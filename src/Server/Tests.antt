-- ===== src/Server/Tests.antt =====
-- Concrete runs of the server's handlers.
mod Surroundings
mod Files
mod Market
mod Routes
use hikari.Prelude.{
  ℕ, zero, suc, ◌+◌, ◌*◌, ◌/◌, ◌≤◌, ◌<◌, ◌≡◌, ◌↔◌, ◌⊎◌, refl, Bool, true, false, List, [], ◌∷◌,
  Option, none, some, arith,
}
use hikari.Prelude.Int.{ℤ, pos, ◌+ℤ◌}
use hikari.Prelude.Text.{String}
use hikari.Prelude.Number.{Number, fixed_point}
use hikari.Prelude.Except.{Except, ok, thrown}
use hikari.Prelude.Json.{Json, object, str, num, bool, or_else, get}
use hikari.Server.Http.{World, Response, OracleTelemetry, property, contract_id}
use hikari.Server.Tickets.{collect}
use hikari.Server.Tickets.Exact.{has_id, IsListed, has_id-collect_iff}
use hikari.Server.Telemetry.{
  unavailable, ContractIds, contract_ids, read_all, is_live_rpc, telemetry, reserve_ratio,
  online_answer, idle_assets, allocated_assets,
}
use hikari.Server.Telemetry.Answers.{
  NoneRead, AnyRead, FullAnswer, telemetry_lem, idle_allocated_total,
}
use Surroundings.{world, contracts}

-- Two requests: the first is another's.
abbrev read_request : ℕ → Except (Json ℤ)
read_request (suc zero) = ok (object (("user", str "GB") ∷ ("ready", bool true) ∷ []))
read_request (suc (suc zero)) = ok (object (("user", str "GA") ∷ ("ready", bool false) ∷ []))
read_request _ = thrown "simulation did not return a success result"

has_id-collect_iff_example :
    (has_id world read_request "GA" 2 (collect world read_request "GA" 1 20) ≡ true)
    ↔ IsListed world read_request "GA" 2 1 20
has_id-collect_iff_example = has_id-collect_iff world read_request "GA" 2

-- The assets can be read and the shares cannot.
telemetry_lem_example :
    ((e : String) × (contract_ids world ≡ thrown e) × (telemetry world ≡ thrown e))
    ⊎ ((c : ContractIds ℤ) × (contract_ids world ≡ ok c)
        × ((NoneRead world (read_all world c)
              × (telemetry world ≡ ok (unavailable world c))
              × ((unavailable world c).status ≡ 503))
            ⊎ (AnyRead world (read_all world c)
                × (((read_all world c).assets ≡ none)
                    ⊎ ((read_all world c).shares ≡ none)
                    ⊎ ((read_all world c).oracle ≡ none))
                × (telemetry world ≡ thrown "TypeError"))
            ⊎ FullAnswer world c (read_all world c)))
telemetry_lem_example = telemetry_lem world
