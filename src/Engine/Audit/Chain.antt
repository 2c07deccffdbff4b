-- ===== src/Engine/Audit/Chain.antt =====
-- engine/src/audit_logger.ts: what the chain keeps, and what its check finds and does not find.
use hikari.Prelude.{
  ℕ, zero, suc, ◌+◌, ◌≡◌, refl, ap, inl, inr, Bool-cases, true, List, [], ◌∷◌, ◌++◌, length, map,
  sym, ◌∙◌, ◌<◌, set, get_elem?, some, ◌↔◌, arith,
}
use mathlib.Core.List.{append-nil, append_assoc}
use hikari.Prelude.Text.{String, ◌==◌, eq_iff, eq_refl}
use hikari.Engine.Types.{ActionProposal, PolicyEvaluation, AuditLogEntry}
use hikari.Engine.Audit.{
  AuditLogger, Payload, genesis, new_audit_logger, links_from, verify_chain_integrity, log_decision,
}

-- The entries are linked from one hash to another, and numbered from k + 1.
pub data Linked : ℕ → String → List AuditLogEntry → String → Type 0 where
  empty : {k : ℕ} {first : String} → Linked k first [] first
  link :
      {k : ℕ} {first last : String} {entry : AuditLogEntry} {rest : List AuditLogEntry}
      → entry.previous_hash ≡ first
      → entry.sequence ≡ k + 1
      → Linked (suc k) entry.entry_hash rest last
      → Linked k first (entry ∷ rest) last

Linked-links_from :
    (k : ℕ) (first last : String) (es : List AuditLogEntry)
    → Linked k first es last
    → links_from first es ≡ true
unfolding links_from
Linked-links_from k first last [] l = refl
Linked-links_from k first last (e ∷ es) (link previous numbered rest) =
    rw (previous, eq_refl first) (Linked-links_from (suc k) e.entry_hash last es rest)

Linked-append :
    (k : ℕ) (first last : String) (es : List AuditLogEntry) (e : AuditLogEntry)
    → Linked k first es last
    → e.previous_hash ≡ last
    → e.sequence ≡ k + length es + 1
    → Linked k first (es ++ e ∷ []) e.entry_hash
Linked-append k first last [] e empty previous numbered = link previous (omega arith) empty
Linked-append k first last (x ∷ es) e (link p n rest) previous numbered =
    link p n (Linked-append (suc k) x.entry_hash last es e rest previous (omega arith))

-- A decision to log, and what an abstract log keeps of it.
pub record Decision : Type 0 where
  pub now : ℕ
  pub proposal : ActionProposal
  pub evaluation : PolicyEvaluation

abbrev pub record_of : Decision → ℕ × String × PolicyEvaluation
record_of d = (d.now, d.proposal.id, d.evaluation)

-- The abstract log that a logger stands for.
abbrev pub abstract_log : List AuditLogEntry → List (ℕ × String × PolicyEvaluation)
abstract_log [] = []
abstract_log (e ∷ es) = (e.timestamp, e.proposal_id, e.evaluation) ∷ abstract_log es

abstract_log-append :
    (es : List AuditLogEntry) (e : AuditLogEntry)
    → abstract_log (es ++ e ∷ [])
      ≡ abstract_log es ++ (e.timestamp, e.proposal_id, e.evaluation) ∷ []
abstract_log-append [] e = refl
abstract_log-append (x ∷ es) e = rw (abstract_log-append es e)

module _ (hash : String → String) (stringify : Payload → String) where
  abbrev pub log_all : List Decision → AuditLogger → AuditLogger
  log_all [] logger = logger
  log_all (d ∷ ds) logger =
      log_all ds (log_decision hash stringify d.now d.proposal d.evaluation logger).0

  module _ (d : Decision) (logger : AuditLogger) where
    next : AuditLogger
    next = (log_decision hash stringify d.now d.proposal d.evaluation logger).0

    log_decision-Linked :
        Linked 0 genesis logger.chain logger.last_hash → Linked 0 genesis next.chain next.last_hash
    unfolding next log_decision
    log_decision-Linked linked =
        Linked-append 0 genesis logger.last_hash logger.chain _ linked refl (omega arith)

    log_decision-abstract_log :
        abstract_log next.chain ≡ abstract_log logger.chain ++ record_of d ∷ []
    unfolding next log_decision
    log_decision-abstract_log = abstract_log-append logger.chain _

  -- The abstract log grows at its end.
  log_all-abstract_log :
      (ds : List Decision) (logger : AuditLogger)
      → Linked 0 genesis logger.chain logger.last_hash
      → (let after = log_all ds logger in
          (abstract_log after.chain ≡ abstract_log logger.chain ++ map record_of ds)
          × Linked 0 genesis after.chain after.last_hash)
  unfolding next
  log_all-abstract_log [] logger linked = (sym (append-nil _), linked)
  log_all-abstract_log (d ∷ ds) logger linked =
      let rest = log_all-abstract_log ds (next d logger) (log_decision-Linked d logger linked) in
      (
        rest.0
            ∙ ap (λ l. l ++ map record_of ds) (log_decision-abstract_log d logger)
            ∙ append_assoc (abstract_log logger.chain) (record_of d ∷ []) (map record_of ds),
        rest.1,
      )

  -- Whatever decisions a new logger logs, its chain holds them all in their order, with their times, proposal
  -- ids and evaluations, linked from the genesis hash and numbered from 1, and verifyChainIntegrity accepts it.
  pub log_all-new_audit_logger :
      (ds : List Decision)
      → (let after = log_all ds new_audit_logger in
          (abstract_log after.chain ≡ map record_of ds)
          × Linked 0 genesis after.chain after.last_hash
          × (verify_chain_integrity after ≡ true))
  unfolding verify_chain_integrity
  log_all-new_audit_logger ds =
      let (kept, linked) = log_all-abstract_log ds new_audit_logger empty in
      (kept, linked, Linked-links_from 0 genesis _ _ linked)

links_from-cons :
    (first : String) (e : AuditLogEntry) (rest : List AuditLogEntry)
    → (links_from first (e ∷ rest) ≡ true)
      ↔ ((e.previous_hash ≡ first) × (links_from e.entry_hash rest ≡ true))
unfolding links_from
links_from-cons first e rest = elim (Bool-cases (e.previous_hash == first)) [
  | inl same ↦ rw same (λ h. ((eq_iff _ _).0 same, h), λ h. h.1)
  | inr other ↦ rw other (λ h. cc, λ h. cc ((eq_iff e.previous_hash first).1 h.0, other))
]

-- In a chain that verifies, an entry but the last is replaced.
set-links_from :
    (first : String) (es : List AuditLogEntry) (i : ℕ) (old new : AuditLogEntry)
    → links_from first es ≡ true
    → get_elem? es i ≡ some old
    → suc i < length es
    → (links_from first (set es i new) ≡ true)
      ↔ ((new.previous_hash ≡ old.previous_hash) × (new.entry_hash ≡ old.entry_hash))
set-links_from first [] i old new ok at inside = absurd (omega arith)
set-links_from first (x ∷ []) i old new ok at inside = absurd (omega arith)
set-links_from first (x ∷ y ∷ es) zero old new ok at inside =
    let whole = (links_from-cons first x (y ∷ es)).0 ok in
    let second = (links_from-cons x.entry_hash y es).0 whole.1 in
    (
      λ h.
          let a = (links_from-cons first new (y ∷ es)).0 h in
          let b = (links_from-cons new.entry_hash y es).0 a.1 in (cc, cc),
      λ h.
          (links_from-cons first new (y ∷ es)).1
            (cc, (links_from-cons new.entry_hash y es).1 (cc, second.1)),
    )
set-links_from first (x ∷ y ∷ es) (suc i) old new ok at inside =
    let whole = (links_from-cons first x (y ∷ es)).0 ok in
    let later = set-links_from x.entry_hash (y ∷ es) i old new whole.1 at (omega arith) in
    (
      λ h. later.0 ((links_from-cons first x (set (y ∷ es) i new)).0 h).1,
      λ h. (links_from-cons first x (set (y ∷ es) i new)).1 (whole.0, later.1 h),
    )

-- In a chain that verifyChainIntegrity accepts, an entry that is not the last is replaced: the chain is still
-- accepted exactly when the new entry has the old one's previousHash and entryHash, whatever it says of the
-- proposal, the evaluation, the time and the sequence.
pub set-verify_chain_integrity :
    (logger : AuditLogger) (i : ℕ) (old new : AuditLogEntry)
    → verify_chain_integrity logger ≡ true
    → get_elem? logger.chain i ≡ some old
    → suc i < length logger.chain
    → (verify_chain_integrity (record logger { chain = set logger.chain i new }) ≡ true)
      ↔ ((new.previous_hash ≡ old.previous_hash) × (new.entry_hash ≡ old.entry_hash))
unfolding verify_chain_integrity
set-verify_chain_integrity logger i old new = set-links_from genesis logger.chain i old new
