-- ===== src/Engine/Reputation.antt =====
-- engine/src/agents/reputation.ts: the agents' records and their standing. Counts are integers; the other
-- numbers are those of the parameter `n`, `two_decimals` stands for `Number(x.toFixed(2))` and `max` for
-- `Math.max`.
pub mod Standing
pub mod Streaks
use hikari.Prelude.{
  ℕ, ◌+◌, Bool, true, false, ◌&&◌, List, [], ◌∷◌, map, Option, none, some, if◌then◌else◌, ltb, leb,
}
use hikari.Prelude.Int.{ℤ, pos}
use hikari.Prelude.Number.{Number}
use hikari.Prelude.Dict.{Dict, insert, lookup}
use hikari.Prelude.Text.{String}

pub data Status : Type 0 where
  active degraded suspended : Status

pub record AgentPerformanceRecord (N : Type 0) : Type 0 where
  pub agent_id : String
  pub role : String
  pub total_proposals_submitted : ℕ
  pub proposals_approved : ℕ
  pub proposals_rejected : ℕ
  pub cumulative_alpha_generated_bps : N
  pub average_execution_slippage_bps : N
  pub sharpe_ratio : N
  pub consecutive_rejections : ℕ
  pub status : Status
  pub last_cycle_timestamp : ℕ

-- the status after so many consecutive rejections, and before them
abbrev pub demoted : ℕ → Status → Status
demoted rejections before =
    if leb 3 rejections && ltb rejections 5
    then degraded
    else if leb 5 rejections
    then suspended
    else before

abbrev pub is_suspended : Status → Bool
is_suspended active = false
is_suspended degraded = false
is_suspended suspended = true

module _ (n : Number) where
  open n use {Num, of_ℤ, add, div}

  abbrev int : ℕ → Num
  int k = of_ℤ (pos k)

  abbrev pub ratio : ℕ → ℕ → Num
  ratio a b = div (int a) (int b)

  abbrev blank : String → String → Num → Num → ℕ → AgentPerformanceRecord Num
  blank agent_id role slippage sharpe now = record {
    agent_id = agent_id;
    role = role;
    total_proposals_submitted = 0;
    proposals_approved = 0;
    proposals_rejected = 0;
    cumulative_alpha_generated_bps = int 0;
    average_execution_slippage_bps = slippage;
    sharpe_ratio = sharpe;
    consecutive_rejections = 0;
    status = active;
    last_cycle_timestamp = now;
  }

  unfoldable pub register_agent :
      String → String → ℕ → Dict (AgentPerformanceRecord Num) → Dict (AgentPerformanceRecord Num)
  register_agent agent_id role now records =
      insert agent_id (blank agent_id role (ratio 12 10) (ratio 21 10) now) records

  unfoldable pub new_agent_reputation_engine : ℕ → Dict (AgentPerformanceRecord Num)
  unfolding register_agent
  new_agent_reputation_engine now =
      register_agent "MevBackrunner" "Atomic Soroban Cross-DEX Arbitrage" now (
        register_agent "YieldAgent" "DeFi Yield Strategy Optimization" now (
          register_agent "MarketAgent" "Market Surveillance & Volatility Monitoring" now
            (register_agent "PaymentAgent" "x402 Micropayments & Oracle Settlement" now [])))

  -- `records.get(agentId) || { … }`
  abbrev pub record_or_unknown :
      String → ℕ → Dict (AgentPerformanceRecord Num) → AgentPerformanceRecord Num
  record_or_unknown agent_id now records = elim (lookup agent_id records) [
    | none ↦ blank agent_id "Unknown" (int 0) (int 1) now
    | some r ↦ r
  ]

  -- the counters and the status after an outcome
  unfoldable pub apply_outcome :
      Bool → Num → Num → ℕ → AgentPerformanceRecord Num → AgentPerformanceRecord Num
  apply_outcome true alpha_bps slippage_bps now r = record r {
    total_proposals_submitted = r.total_proposals_submitted + 1;
    last_cycle_timestamp = now;
    proposals_approved = r.proposals_approved + 1;
    consecutive_rejections = 0;
    cumulative_alpha_generated_bps = add r.cumulative_alpha_generated_bps alpha_bps;
    average_execution_slippage_bps =
        div (add r.average_execution_slippage_bps slippage_bps) (int 2);
    status = active;
  }
  apply_outcome false alpha_bps slippage_bps now r = record r {
    total_proposals_submitted = r.total_proposals_submitted + 1;
    last_cycle_timestamp = now;
    proposals_rejected = r.proposals_rejected + 1;
    consecutive_rejections = r.consecutive_rejections + 1;
    status = demoted (r.consecutive_rejections + 1) r.status;
  }

  unfoldable pub is_agent_eligible : String → Dict (AgentPerformanceRecord Num) → Bool
  is_agent_eligible agent_id records = elim (lookup agent_id records) [
    | none ↦ false
    | some r ↦ if is_suspended r.status then false else true
  ]

  abbrev pub get_scorecard : Dict (AgentPerformanceRecord Num) → List (AgentPerformanceRecord Num)
  get_scorecard [] = []
  get_scorecard ((agent_id, r) ∷ rest) = r ∷ get_scorecard rest

  abbrev pub get_agent :
      String → Dict (AgentPerformanceRecord Num) → Option (AgentPerformanceRecord Num)
  get_agent agent_id records = lookup agent_id records

module _ (n : Number) (two_decimals : Number.Num n → Number.Num n)
    (max : Number.Num n → Number.Num n → Number.Num n) where
  open n use {Num, add, mul, div}

  abbrev pub sharpe_of : AgentPerformanceRecord Num → Num
  sharpe_of r =
      let approval_rate =
        if ltb 0 r.total_proposals_submitted
        then ratio n r.proposals_approved r.total_proposals_submitted
        else int n 1 in
      max (ratio n 1 10) (
        two_decimals (
          add (mul approval_rate (ratio n 25 10))
            (div r.cumulative_alpha_generated_bps (int n 1000))))

  unfoldable pub record_proposal_outcome :
      String
      → Bool
      → Num
      → Num
      → ℕ
      → Dict (AgentPerformanceRecord Num)
      → Dict (AgentPerformanceRecord Num) × AgentPerformanceRecord Num
  unfolding apply_outcome
  record_proposal_outcome agent_id approved alpha_bps slippage_bps now records =
      let r =
        apply_outcome n approved alpha_bps slippage_bps now
          (record_or_unknown n agent_id now records) in
      let scored = record r { sharpe_ratio = sharpe_of r } in
      (insert agent_id scored records, scored)
