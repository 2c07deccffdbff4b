-- ===== src/Engine/Audit.antt =====
-- engine/src/audit_logger.ts: the hash chain of decisions. `hash` stands for SHA-256 in hexadecimal, and
-- `stringify` for `JSON.stringify` of the fields that a hash covers.
pub mod Chain
use hikari.Prelude.{ℕ, suc, ◌+◌, Bool, true, false, List, [], ◌∷◌, ◌++◌, if◌then◌else◌, length}
use hikari.Prelude.Int.{ℤ}
use hikari.Prelude.Text.{String, ◌==◌}
use hikari.Engine.Types.{ActionProposal, PolicyEvaluation, AuditLogEntry}

abbrev pub genesis : String
genesis = "0000000000000000000000000000000000000000000000000000000000000000"

pub record AuditLogger : Type 0 where
  pub chain : List AuditLogEntry
  pub last_hash : String

abbrev pub new_audit_logger : AuditLogger
new_audit_logger = record { chain = []; last_hash = genesis }

-- What the hash of an entry covers.
pub record Payload : Type 0 where
  pub sequence : ℕ
  pub timestamp : ℕ
  pub previous_hash : String
  pub proposal_id : String
  pub proposer : String
  pub target : String
  pub amount : ℤ
  pub approved : Bool
  pub requires_human : Bool
  pub violations : List String

-- the check of the links in `verifyChainIntegrity`
unfoldable pub links_from : String → List AuditLogEntry → Bool
links_from expected [] = true
links_from expected (entry ∷ rest) =
    let following = links_from entry.entry_hash rest in
    if entry.previous_hash == expected then following else false

unfoldable pub verify_chain_integrity : AuditLogger → Bool
unfolding links_from
verify_chain_integrity logger = links_from genesis logger.chain

abbrev pub get_entries : AuditLogger → List AuditLogEntry
get_entries logger = logger.chain

module _ (hash : String → String) (stringify : Payload → String) where
  unfoldable pub log_decision :
      ℕ → ActionProposal → PolicyEvaluation → AuditLogger → AuditLogger × AuditLogEntry
  log_decision now p e logger =
      let sequence = length logger.chain + 1 in
      let payload = stringify (record {
        sequence = sequence;
        timestamp = now;
        previous_hash = logger.last_hash;
        proposal_id = p.id;
        proposer = p.proposer_agent;
        target = p.target_strategy;
        amount = p.amount_stroops;
        approved = e.approved;
        requires_human = e.requires_human_approval;
        violations = e.violations;
      }) in
      let entry : AuditLogEntry = record {
        sequence = sequence;
        timestamp = now;
        previous_hash = logger.last_hash;
        proposal_id = p.id;
        evaluation = e;
        entry_hash = hash payload;
      } in
      (record { chain = logger.chain ++ entry ∷ []; last_hash = hash payload }, entry)
