-- ===== src/Engine/Rationale.antt =====
-- engine/src/audit/rationale_feed.ts: the feed of the latest decisions, newest first. Scores and metrics are
-- numbers of the type `N`; `iso_time` stands for `new Date(t).toISOString().slice(11, 19)`, `percent` for a
-- number in a template.
pub mod Recent
use hikari.Prelude.{ℕ, List, [], ◌∷◌, Option, ltb, length, take, if◌then◌else◌}
use hikari.Prelude.Text.{String, ◌⊕◌}

pub data ProposedAction : Type 0 where
  rebalance harvest de_risk mev_backrun : ProposedAction

pub record MetricsObserved (N : Type 0) : Type 0 where
  pub spread_bps : Option N
  pub blend_apy_bps : Option N
  pub phoenix_fee_apr_bps : Option N
  pub portfolio_var_pct : Option N
  pub current_reserve_pct : Option N

pub record DecisionRationale (N : Type 0) : Type 0 where
  pub cycle_id : String
  pub timestamp : ℕ
  pub proposer : String
  pub strategy_target : String
  pub proposed_action : ProposedAction
  pub amount_stroops : String
  pub metrics_observed : MetricsObserved N
  pub mathematical_rationale : String
  pub policy_confidence_score : N

abbrev name_action : ProposedAction → String
name_action rebalance = "REBALANCE"
name_action harvest = "HARVEST"
name_action de_risk = "DE_RISK"
name_action mev_backrun = "MEV_BACKRUN"

module _ {N : Type 0} where
  -- `logStream.pop()`
  abbrev pub pop_last : List (DecisionRationale N) → List (DecisionRationale N)
  pop_last [] = []
  pop_last (r ∷ []) = []
  pop_last (r ∷ s ∷ rest) = r ∷ pop_last (s ∷ rest)

  -- the stream and the entry, from the data (whose timestamp is not read) and the clock
  unfoldable pub emit_rationale :
      DecisionRationale N
      → ℕ
      → List (DecisionRationale N)
      → List (DecisionRationale N) × DecisionRationale N
  emit_rationale details now log_stream =
      let entry = record details { timestamp = now } in
      let longer = entry ∷ log_stream in
      (if ltb 50 (length longer) then pop_last longer else longer, entry)

  unfoldable pub get_recent_rationales : ℕ → List (DecisionRationale N) → List (DecisionRationale N)
  get_recent_rationales limit log_stream = take limit log_stream

  unfoldable pub format_explanation : (ℕ → String) → (N → String) → DecisionRationale N → String
  format_explanation iso_time percent r =
      "["
      ⊕ iso_time r.timestamp
      ⊕ "] ["
      ⊕ r.proposer
      ⊕ "] Action: "
      ⊕ name_action r.proposed_action
      ⊕ " -> "
      ⊕ r.strategy_target
      ⊕ " | "
      ⊕ r.mathematical_rationale
      ⊕ " (Confidence: "
      ⊕ percent r.policy_confidence_score
      ⊕ "%)"
