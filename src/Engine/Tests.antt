-- ===== src/Engine/Tests.antt =====
-- engine/src: data for the tests, and the theorems at concrete inputs.
mod Trees
mod Policies
mod Risks
mod Logs
mod Keepers
mod Feeds
use Prim.Native.String
use hikari.Prelude.{ℕ, List, [], ◌∷◌, true, false}
use hikari.Prelude.Int.{ℤ, pos, negsuc}
use hikari.Prelude.Text.{String, ◌⊕◌}
use hikari.Engine.Types.{
  PolicyEvaluation, AuditLogEntry, ActionProposal, PolicyRules, ProtocolState, allocate,
}

-- a stand-in for SHA-256
abbrev pub bracket : String → String
bracket s = String.◌∷◌ "(" (s ⊕ ")")

abbrev pub accepted : PolicyEvaluation
accepted = record { approved = true; requires_human_approval = false; violations = []; notes = [] }

abbrev pub log_entry : ℕ → String → AuditLogEntry
log_entry n h = record {
  sequence = n;
  timestamp = 1000;
  previous_hash = "";
  proposal_id = "p";
  evaluation = accepted;
  entry_hash = h;
}

abbrev pub three_entries : List AuditLogEntry
three_entries = log_entry 1 "a" ∷ log_entry 2 "b" ∷ log_entry 3 "c" ∷ []

-- a stand-in for an integer in a template
abbrev pub show : ℤ → String
show (pos n) = "n"
show (negsuc n) = "-n"

abbrev pub keeper_rules : PolicyRules
keeper_rules = record {
  allowed_agents = "keeper" ∷ [];
  allowed_strategies = "Blend" ∷ [];
  max_transaction_size_stroops = pos 400;
  daily_spend_cap_stroops = pos 500;
  max_slippage_bps = pos 50;
  min_idle_reserve_percentage = pos 15;
  human_approval_threshold_stroops = pos 350;
}

abbrev pub vault_state : ProtocolState
vault_state = record {
  vault_address = "vault";
  total_assets_stroops = pos 2000;
  idle_assets_stroops = pos 1000;
  allocated_assets_stroops = pos 1000;
  strategy_allocations = ("Blend", pos 1000) ∷ [];
}

abbrev pub allocation : ℕ → ActionProposal
allocation n = record {
  id = "p1";
  timestamp = 10;
  proposer_agent = "keeper";
  action_type = allocate;
  target_strategy = "Blend";
  amount_stroops = pos n;
  expected_yield_bps = pos 1240;
  max_slippage_bps = pos 50;
  rationale = "drift";
}
