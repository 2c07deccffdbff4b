-- ===== src/Engine/Tests/Logs.antt =====
-- engine/src/audit_logger.ts and policy_engine.ts: the theorems at concrete inputs.
use hikari.Prelude.{◌≡◌, ◌↔◌, refl, true, List, [], ◌∷◌, map, set, arith}
use hikari.Prelude.Int.{ℤ, pos, ◌+ℤ◌, ◌-ℤ◌}
use hikari.Prelude.Dict.{Dict, lookup}
use hikari.Prelude.Except.{ok, thrown}
use hikari.Prelude.Text.{String}
use hikari.Engine.Types.{AuditLogEntry}
use hikari.Engine.Audit.{AuditLogger, Payload, genesis, new_audit_logger, verify_chain_integrity}
use hikari.Engine.Audit.Chain.{
  Decision, record_of, abstract_log, log_all, Linked, log_all-new_audit_logger,
  set-verify_chain_integrity,
}
use hikari.Engine.Rebalance.{RebalanceProposal, validate_proposal}
use hikari.Engine.Rebalance.Limits.{WithinLimits, validate_proposal-WithinLimits}
use hikari.Engine.Tests.{bracket, show, accepted, allocation}

abbrev stringify : Payload → String
stringify x = x.proposal_id

abbrev decisions : List Decision
decisions =
    record { now = 5; proposal = allocation 10; evaluation = accepted }
    ∷ record { now = 9; proposal = allocation 20; evaluation = accepted }
    ∷ []

log_all-new_audit_logger_example :
    (let after = log_all bracket stringify decisions new_audit_logger in
      (abstract_log after.chain ≡ map record_of decisions)
      × Linked 0 genesis after.chain after.last_hash
      × (verify_chain_integrity after ≡ true))
log_all-new_audit_logger_example = log_all-new_audit_logger bracket stringify decisions

abbrev linked_entry : String → String → String → AuditLogEntry
linked_entry id previous own = record {
  sequence = 1;
  timestamp = 5;
  previous_hash = previous;
  proposal_id = id;
  evaluation = accepted;
  entry_hash = own;
}

abbrev logger : AuditLogger
logger = record {
  chain = linked_entry "p1" genesis "a" ∷ linked_entry "p2" "a" "b" ∷ [];
  last_hash = "b";
}

logger_verifies : verify_chain_integrity logger ≡ true
unfolding verify_chain_integrity
logger_verifies = refl

set-verify_chain_integrity_example :
    (verify_chain_integrity
        (record logger { chain = set logger.chain 0 (linked_entry "forged" genesis "a") })
      ≡ true)
    ↔ ((genesis ≡ genesis) × (◌≡◌ {A = String} "a" "a"))
set-verify_chain_integrity_example =
    set-verify_chain_integrity logger 0 (linked_entry "p1" genesis "a")
      (linked_entry "forged" genesis "a") logger_verifies refl (omega arith)

abbrev same_text : String → String
same_text s = s

abbrev current : Dict ℤ
current = ("Blend", pos 8000) ∷ ("idle", pos 2000) ∷ []

abbrev rebalancing : RebalanceProposal
rebalancing = record {
  vault_address = "vault";
  allocations = ("Blend", pos 9000) ∷ ("idle", pos 1000) ∷ [];
  estimated_slippage_bps = pos 30;
}

rebalancing_accepted :
    validate_proposal same_text show ("Blend" ∷ "idle" ∷ []) current rebalancing ≡ ok true
unfolding validate_proposal ◌-ℤ◌ ◌+ℤ◌ lookup
rebalancing_accepted = refl

validate_proposal-WithinLimits_example :
    ((validate_proposal same_text show ("Blend" ∷ "idle" ∷ []) current rebalancing ≡ ok true)
      ↔ WithinLimits same_text ("Blend" ∷ "idle" ∷ []) current rebalancing)
    × (¬ WithinLimits same_text ("Blend" ∷ "idle" ∷ []) current rebalancing
        → (message : String) × (validate_proposal same_text show
              ("Blend" ∷ "idle" ∷ [])
              current
              rebalancing
            ≡ thrown message))
validate_proposal-WithinLimits_example =
    validate_proposal-WithinLimits same_text show ("Blend" ∷ "idle" ∷ []) current rebalancing
