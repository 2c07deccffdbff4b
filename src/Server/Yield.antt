-- ===== src/Server/Yield.antt =====
-- frontend/server.js: `/api/yield-routes`, the adapters whose total value can be read.
pub mod Reachable
use hikari.Prelude.{Bool, true, false, List, [], ◌∷◌, map, Option, none, some, if◌then◌else◌}
use hikari.Prelude.Int.{ℤ, pos}
use hikari.Prelude.Text.{String, ◌⊕◌}
use hikari.Prelude.Number.{Number}
use hikari.Prelude.Except.{Except, ok, thrown, ◌>>=◌}
use hikari.Prelude.Json.{Json, null, num, str, object, array, get, is_nullish, truthy, or_else}
use hikari.Server.Http.{Response, Reader, World, respond, property, read_json_safe}

pub record Adapter : Type 0 where
  pub id : String
  pub name : String
  pub protocol : String
  pub category : String
  -- the name of the adapter in deployed_contracts.json
  pub deployed_as : String
  pub risk_tier : String
  pub allocation_pct : ℤ

abbrev pub adapter_defs : List Adapter
adapter_defs =
    record {
      id = "route_blend_backstop";
      name = "Blend Protocol Backstop Module (bBLND-XLM)";
      protocol = "Blend Protocol 27";
      category = "BACKSTOP_STAKING";
      deployed_as = "blendAdapter";
      risk_tier = "MODERATE_FIRST_LOSS";
      allocation_pct = pos 35;
    }
    ∷ record {
      id = "route_phoenix_clamm";
      name = "Phoenix XLM-USDC Concentrated Liquidity (CLAMM ±2%)";
      protocol = "Phoenix CLAMM";
      category = "CONCENTRATED_AMM";
      deployed_as = "phoenixAdapter";
      risk_tier = "CONCENTRATED_IL_MANAGED";
      allocation_pct = pos 30;
    }
    ∷ record {
      id = "route_soroswap_farm";
      name = "Soroswap XLM-USDC Dynamic AMM Pool & Farm";
      protocol = "Soroswap";
      category = "CONSTANT_PRODUCT_FARM";
      deployed_as = "soroswapAdapter";
      risk_tier = "LOW_TO_MODERATE";
      allocation_pct = pos 20;
    }
    ∷ []

-- `results.filter(Boolean)` of values or null
unfoldable pub present {ℓ} : {A : Type ℓ} → List (Option A) → List A
present [] = []
present (none ∷ xs) = present xs
present (some a ∷ xs) = a ∷ present xs

module _ {n : Number} (w : World n) where
  open n use {Num, of_ℤ, div}

  -- `tvlStroops`
  unfoldable pub total_value : Reader Num → String → Except String
  total_value reader contract = do
    value ← reader.simulate_call contract "total_value"
    (if is_nullish value then ok "0" else (do z ← w.big_int value; ok (w.show_ℤ z)))

  -- `rateBps`; a failed call leaves it null.
  unfoldable pub configured_rate : Reader Num → String → Option Num
  configured_rate reader contract = elim (reader.simulate_call contract "configured_rate_bps") [
    | thrown e ↦ none
    | ok rate ↦ if is_nullish rate then none else some (w.number_of rate)
  ]

  abbrev rate_pct : Option Num → Json Num
  rate_pct none = null
  rate_pct (some bps) = num (div bps (of_ℤ (pos 100)))

  abbrev rate_source : Option Num → String
  rate_source none = "PENDING_ADAPTER_REDEPLOY"
  rate_source (some bps) = "ON_CHAIN_CONFIGURED_RATE"

  abbrev pub route_json : Adapter → Json Num → String → Option Num → Json Num
  route_json a contract tvl rate = object (
      ("id", str a.id)
      ∷ ("name", str a.name)
      ∷ ("protocol", str a.protocol)
      ∷ ("category", str a.category)
      ∷ ("contractId", contract)
      ∷ ("tvlStroops", str tvl)
      ∷ ("configuredRatePct", rate_pct rate)
      ∷ ("rateSource", str (rate_source rate))
      ∷ (
        "integrationStatus",
        str ("SIMULATED_YIELD — this adapter does not call the real " ⊕ a.protocol ⊕ " contracts"),
      )
      ∷ ("allocationPct", num (of_ℤ a.allocation_pct))
      ∷ ("riskTier", str a.risk_tier)
      ∷ ("dataSource", str "LIVE_SOROBAN_RPC")
      ∷ [])

  -- `def.contractId || yc[def.id]?.id`
  unfoldable pub adapter_contract : Json Num → Adapter → Json Num
  adapter_contract yc a = or_else n (get "id" (get a.deployed_as yc)) (get "id" (get a.id yc))

  unfoldable pub route : Reader Num → Json Num → Adapter → Option (Json Num)
  route reader yc a =
      let contract = adapter_contract yc a in
      if truthy n contract
      then elim (total_value reader (w.show contract)) [
        | thrown e ↦ none
        | ok tvl ↦ some (route_json a contract tvl (configured_rate reader (w.show contract)))
      ]
      else none

  unfoldable pub routes_of : Json Num → List (Json Num)
  routes_of yc = elim w.reader [
    | none ↦ []
    | some reader ↦ present (map (route reader yc) adapter_defs)
  ]

  unfoldable pub routes_answer : List (Json Num) → Response Num
  routes_answer [] = respond 503 (
      object (
        ("error", str "Yield adapter contracts not reachable. No live data available.")
        ∷ ("dataSource", str "NONE")
        ∷ ("routes", array [])
        ∷ []))
  routes_answer (r ∷ rs) = respond 200 (
      object (
        ("timestamp", str w.iso_now)
        ∷ ("runtime", str "Stellar Protocol 27 (Soroban)")
        ∷ ("benchmarkAsset", str "XLM")
        ∷ ("dataSource", str "LIVE_SOROBAN_RPC")
        ∷ (
          "disclosure",
          str
              "TVL per adapter is a live on-chain read. Rate figures (when present) are each adapter's own configured self-accrual rate, not live yield from Blend/Phoenix/Soroswap — none of these adapters call those protocols yet.",
        )
        ∷ ("routes", array (r ∷ rs))
        ∷ []))

  unfoldable pub yield_routes : Except (Response Num)
  yield_routes = do
    given ← property w "contracts" (read_json_safe w.contracts_file)
    ok (routes_answer (routes_of (or_else n given (object []))))
