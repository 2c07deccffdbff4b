-- ===== src/Server/Telemetry.antt =====
-- frontend/server.js: `/api/telemetry`. The handler is asynchronous: `thrown` is a rejection outside
-- its `try`, after which no response is sent.
pub mod Answers
use hikari.Prelude.{
  ℕ, Bool, true, false, not, ◌&&◌, ◌||◌, List, [], ◌∷◌, Option, none, some, if◌then◌else◌,
}
use hikari.Prelude.Int.{ℤ, pos, ltb_ℤ, ◌-ℤ◌, ◌*ℤ◌, div_by}
use hikari.Prelude.Text.{String, ◌⊕◌, starts_with, is_empty}
use hikari.Prelude.Number.{Number}
use hikari.Prelude.Except.{Except, ok, thrown, ◌>>=◌, or_throw}
use hikari.Prelude.Json.{Json, bool, num, str, null, object, array, is_nonzero}
use hikari.Server.Http.{
  Response, OracleTelemetry, GateSealStatus, Reader, World, respond, contract_id,
}
use hikari.Server.Transactions.{default_vault, default_queue}

abbrev pub default_oracle : String
default_oracle = "CAEPCI2TEPENZZBGSMSQEL3W6IW7TYBXRKGXU25J56LQUC33NXJXF6S6"

abbrev pub default_gate_seal : String
default_gate_seal = "CAS5XIHKYBCCW7WTYDBGGLQ5P7OSQHEPVIUWCQ2W5ARMYXWUCQSEZYDJ"

-- `promise.catch(() => null)`
abbrev pub or_null {ℓ} : {A : Type ℓ} → Except A → Option A
or_null (ok a) = some a
or_null (thrown e) = none

-- What the four reads gave.
pub record Reads (N : Type 0) : Type 0 where
  pub assets : Option ℤ
  pub shares : Option ℤ
  pub oracle : Option (OracleTelemetry N)
  pub seal : Option (GateSealStatus N)

pub record ContractIds (N : Type 0) : Type 0 where
  pub vault : Json N
  pub oracle : Json N
  pub gate_seal : Json N
  pub withdrawal_queue : Json N

abbrev pub is_some {ℓ} : {A : Type ℓ} → Option A → Bool
is_some none = false
is_some (some a) = true

abbrev pub no_reads : {N : Type 0} → Reads N
no_reads = record { assets = none; shares = none; oracle = none; seal = none }

-- `isLiveRpc`: the shares alone do not count.
unfoldable pub is_live_rpc : {N : Type 0} → Reads N → Bool
is_live_rpc r = is_some r.assets || is_some r.oracle || is_some r.seal

-- The reserve at hand and the rest, of total assets and a reserve ratio.
unfoldable pub idle_assets : ℤ → ℤ → ℤ
idle_assets total ratio = if ltb_ℤ (pos 0) ratio then div_by (total *ℤ ratio) 10000 else pos 0

unfoldable pub allocated_assets : ℤ → ℤ → ℤ
allocated_assets total idle = if ltb_ℤ idle total then total -ℤ idle else pos 0

unfoldable pub proof_hash : String → String
proof_hash h = if is_empty h then "0x00" else if starts_with h "0x" then h else "0x" ⊕ h

module _ {n : Number} (w : World n) where
  open n use {Num, of_ℤ, to_ℤ, div}

  unfoldable pub read_all : ContractIds Num → Reads Num
  read_all c = elim w.reader [
    | none ↦ no_reads
    | some reader ↦ record {
      assets = or_null (reader.read_vault_total_assets (w.show c.vault));
      shares = or_null (reader.read_vault_total_shares (w.show c.vault));
      oracle = or_null (reader.read_oracle_telemetry (w.show c.oracle));
      seal = or_null (reader.read_gate_seal_status (w.show c.gate_seal));
    }
  ]

  unfoldable pub contract_ids : Except (ContractIds Num)
  contract_ids = do
    vault ← contract_id w "vault" default_vault
    oracle ← contract_id w "oracle" default_oracle
    gate_seal ← contract_id w "gateSeal" default_gate_seal
    queue ← contract_id w "withdrawalQueue" default_queue
    ok (record { vault = vault; oracle = oracle; gate_seal = gate_seal; withdrawal_queue = queue })

  abbrev pub ids_json : ContractIds Num → Json Num
  ids_json c = object (
      ("vault", c.vault)
      ∷ ("oracle", c.oracle)
      ∷ ("gateSeal", c.gate_seal)
      ∷ ("withdrawalQueue", c.withdrawal_queue)
      ∷ [])

  pub unavailable : ContractIds Num → Response Num
  unavailable c = respond 503 (
      object (
        ("status", str "RPC_UNAVAILABLE")
        ∷ ("dataSource", str "NONE")
        ∷ ("error", str "Could not connect to Soroban RPC. No live data available.")
        ∷ ("contracts", ids_json c)
        ∷ []))

  abbrev xlm : ℤ → String
  xlm z = w.show (num (div (of_ℤ z) (of_ℤ (pos 10_000_000))))

  abbrev zero : Json Num
  zero = num (of_ℤ (pos 0))

  oracle_json : OracleTelemetry Num → Json Num
  oracle_json t = object (
      ("navStroops", str (w.show_ℤ t.nav_stroops))
      ∷ ("aprBps", num t.apr_bps)
      ∷ ("totalReservesStroops", str (w.show_ℤ t.total_reserves))
      ∷ ("liquidReserveRatioBps", num t.liquid_reserve_ratio_bps)
      ∷ ("bunkerActive", bool t.bunker_active)
      ∷ ("proofHash", str (proof_hash t.proof_hash))
      ∷ [])

  breaker_json : Option (GateSealStatus Num) → OracleTelemetry Num → Json Num
  breaker_json none t = object (
      ("isGateSealed", bool false)
      ∷ ("isBunkerMode", bool false)
      ∷ ("sealedAtLedger", zero)
      ∷ ("durationLedgers", zero)
      ∷ ("haircutBps", zero)
      ∷ ("drawdownBps", zero)
      ∷ [])
  breaker_json (some s) t = object (
      ("isGateSealed", bool s.is_sealed)
      ∷ ("isBunkerMode", bool t.bunker_active)
      ∷ ("sealedAtLedger", num s.sealed_at_ledger)
      ∷ ("durationLedgers", num s.duration_ledgers)
      ∷ ("haircutBps", zero)
      ∷ ("drawdownBps", zero)
      ∷ [])

  abbrev is_sealed : Option (GateSealStatus Num) → Bool
  is_sealed none = false
  is_sealed (some s) = s.is_sealed

  abbrev vault_state : ℤ → ℤ → ℤ → Json Num
  vault_state assets shares ratio =
      let idle = idle_assets assets ratio in
      object (
        ("totalAssetsStroops", str (w.show_ℤ assets))
        ∷ ("totalSharesStroops", str (w.show_ℤ shares))
        ∷ ("idleAssetsStroops", str (w.show_ℤ idle))
        ∷ ("allocatedAssetsStroops", str (w.show_ℤ (allocated_assets assets idle)))
        ∷ ("reservePercentage", num (div (of_ℤ ratio) (of_ℤ (pos 100))))
        ∷ [])

  abbrev recent_logs : ℤ → OracleTelemetry Num → Option (GateSealStatus Num) → Json Num
  recent_logs assets t seal = array (
      str "Hikari Agent Layer connected to Stellar Testnet (Protocol 27 Soroban)."
      ∷ str ("Live on-chain Vault Total Assets: " ⊕ xlm assets ⊕ " XLM.")
      ∷ str (
          "Real Oracle Telemetry NAV: "
          ⊕ xlm t.nav_stroops
          ⊕ " XLM (APR: "
          ⊕ w.to_fixed (div t.apr_bps (of_ℤ (pos 100))) 2
          ⊕ "%).")
      ∷ str (
          "GateSeal Circuit Breaker Status: "
          ⊕ (if is_sealed seal then "SEALED" else "NORMAL (UNSEALED)")
          ⊕ ".")
      ∷ [])

  -- `BigInt(oracleTel.liquidReserveRatioBps || 0)`
  unfoldable pub reserve_ratio : OracleTelemetry Num → Except ℤ
  reserve_ratio t =
      if is_nonzero n t.liquid_reserve_ratio_bps
      then or_throw (to_ℤ t.liquid_reserve_ratio_bps) w.range_error
      else ok (pos 0)

  unfoldable pub online_answer :
      ContractIds Num → ℤ → ℤ → ℤ → OracleTelemetry Num → Option (GateSealStatus Num) → Response Num
  unfolding oracle_json breaker_json
  online_answer c assets shares ratio t seal = respond 200 (
      object (
        ("status", str "ONLINE")
        ∷ ("dataSource", str "LIVE_SOROBAN_RPC")
        ∷ ("lastCycleTimestamp", num w.now_ms)
        ∷ ("vaultState", vault_state assets shares ratio)
        ∷ ("oracleTelemetry", oracle_json t)
        ∷ ("circuitBreaker", breaker_json seal t)
        ∷ ("contracts", ids_json c)
        ∷ ("recentLogs", recent_logs assets t seal)
        ∷ []))

  -- The rest of the handler where something was read: each null is a TypeError here.
  unfoldable pub online : ContractIds Num → Reads Num → Except (Response Num)
  online c r = do
    assets ← or_throw r.assets w.type_error
    shares ← or_throw r.shares w.type_error
    t ← or_throw r.oracle w.type_error
    ratio ← reserve_ratio t
    ok (online_answer c assets shares ratio t r.seal)

  unfoldable pub telemetry : Except (Response Num)
  unfolding unavailable
  telemetry = do
    c ← contract_ids
    let r = read_all c
    (if is_live_rpc r then online c r else ok (unavailable c))
