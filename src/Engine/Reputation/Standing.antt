-- ===== src/Engine/Reputation/Standing.antt =====
-- engine/src/agents/reputation.ts: an agent's standing follows from its latest outcomes.
use native.Mathlib.Decide.{dec_lt}
use hikari.Prelude.{
  ℕ, ◌+◌, ◌≤◌, ◌<◌, ◌≡◌, ◌↔◌, refl, inl, inr, Bool-cases, Bool, true, false, [], Option-cases, some,
  if◌then◌else◌, arith,
}
use hikari.Prelude.Number.{Number}
use hikari.Prelude.Dict.{Dict, insert, lookup, lookup-insert}
use hikari.Prelude.Text.{String, ◌==◌}
use hikari.Engine.Reputation.{
  active, degraded, suspended, AgentPerformanceRecord, register_agent, new_agent_reputation_engine,
  record_or_unknown, apply_outcome, record_proposal_outcome, is_agent_eligible, is_suspended,
}

-- What holds of every record: the outcomes add up, and the status is the one of the streak of rejections.
pub record IsConsistent {N : Type 0} (r : AgentPerformanceRecord N) : Type 0 where
  pub submitted : r.total_proposals_submitted ≡ r.proposals_approved + r.proposals_rejected
  pub streak : r.consecutive_rejections ≤ r.proposals_rejected
  pub is_active : r.consecutive_rejections < 3 → r.status ≡ active
  pub is_degraded :
      3 ≤ r.consecutive_rejections → r.consecutive_rejections < 5 → r.status ≡ degraded
  pub is_suspended : 5 ≤ r.consecutive_rejections → r.status ≡ suspended

module _ (n : Number) (two_decimals : Number.Num n → Number.Num n)
    (max : Number.Num n → Number.Num n → Number.Num n) where
  open n use {Num}

  -- The states of the engine: after its constructor, a registration or an outcome.
  pub data Reachable : Dict (AgentPerformanceRecord Num) → Type 0 where
    created :
        {m : Dict (AgentPerformanceRecord Num)} (now : ℕ)
        → m ≡ new_agent_reputation_engine n now
        → Reachable m
    registered :
        {m m' : Dict (AgentPerformanceRecord Num)} (agent_id role : String) (now : ℕ)
        → m' ≡ register_agent n agent_id role now m
        → Reachable m
        → Reachable m'
    recorded :
        {m m' : Dict (AgentPerformanceRecord Num)} (agent_id : String) (approved : Bool)
        (alpha_bps slippage_bps : Num) (now : ℕ)
        → m'
          ≡ (record_proposal_outcome n two_decimals max agent_id approved alpha_bps slippage_bps now
              m).0
        → Reachable m
        → Reachable m'

  apply_outcome-IsConsistent :
      (approved : Bool) (alpha_bps slippage_bps : Num) (now : ℕ) (r : AgentPerformanceRecord Num)
      → IsConsistent r
      → IsConsistent (apply_outcome n approved alpha_bps slippage_bps now r)
  unfolding apply_outcome
  apply_outcome-IsConsistent true alpha_bps slippage_bps now r c = ground arith
  apply_outcome-IsConsistent false alpha_bps slippage_bps now r c = ground arith

  -- every record of the map is consistent
  abbrev AllConsistent : Dict (AgentPerformanceRecord Num) → Type 0
  AllConsistent m =
      (id : String) (r : AgentPerformanceRecord Num) → lookup id m ≡ some r → IsConsistent r

  insert-AllConsistent :
      (id : String) (new : AgentPerformanceRecord Num) (m : Dict (AgentPerformanceRecord Num))
      → IsConsistent new
      → AllConsistent m
      → AllConsistent (insert id new m)
  insert-AllConsistent id new m c all other r found =
      let at : (if id == other then some new else lookup other m) ≡ some r =
        rw (← lookup-insert id other new m) found in
      elim (Bool-cases (id == other)) [
        | inl same ↦ let own : new ≡ r = cc (at, same) in rw (← own) c
        | inr apart ↦ let kept : lookup other m ≡ some r = cc (at, apart) in all other r kept
      ]

  known-IsConsistent :
      (id : String) (now : ℕ) (m : Dict (AgentPerformanceRecord Num))
      → AllConsistent m
      → IsConsistent (record_or_unknown n id now m)
  known-IsConsistent id now m all = elim (Option-cases (lookup id m)) [
    | inl missing ↦ rw (missing, record_or_unknown) (ground arith)
    | inr (r, found) ↦ rw (found, record_or_unknown) (all id r found)
  ]

  registered-AllConsistent :
      (id role : String) (now : ℕ) (m : Dict (AgentPerformanceRecord Num))
      → AllConsistent m
      → AllConsistent (register_agent n id role now m)
  unfolding register_agent
  registered-AllConsistent id role now m = insert-AllConsistent id _ m (ground arith)

  recorded-AllConsistent :
      (id : String) (approved : Bool) (alpha slippage : Num) (now : ℕ)
      (m : Dict (AgentPerformanceRecord Num))
      → AllConsistent m
      → AllConsistent
          (record_proposal_outcome n two_decimals max id approved alpha slippage now m).0
  unfolding record_proposal_outcome
  recorded-AllConsistent id approved alpha slippage now m all =
      let applied =
        apply_outcome-IsConsistent approved alpha slippage now _
          (known-IsConsistent id now m all) in
      insert-AllConsistent id _ m (ground (arith, applied)) all

  none-AllConsistent : AllConsistent []
  unfolding lookup
  none-AllConsistent id r found = cc

  Reachable-AllConsistent : (m : Dict (AgentPerformanceRecord Num)) → Reachable m → AllConsistent m
  Reachable-AllConsistent m (created now e) = rw e (
      unfold new_agent_reputation_engine in
      registered-AllConsistent _ _ now _ (
        registered-AllConsistent _ _ now _ (
          registered-AllConsistent _ _ now _
            (registered-AllConsistent _ _ now [] none-AllConsistent))))
  Reachable-AllConsistent m (registered id role now e before) =
      rw e (registered-AllConsistent id role now _ (Reachable-AllConsistent _ before))
  Reachable-AllConsistent m (recorded id approved alpha slippage now e before) =
      rw e
        (recorded-AllConsistent id approved alpha slippage now _ (Reachable-AllConsistent _ before))

  eligible_iff :
      (r : AgentPerformanceRecord Num)
      → IsConsistent r
      → ((if is_suspended r.status then false else true) ≡ true) ↔ (r.consecutive_rejections < 5)
  eligible_iff r c = elim (dec_lt r.consecutive_rejections 3) [
    | yes few ↦ rw (c.is_active few) (λ h. omega arith, λ h. refl)
    | no many ↦ elim (dec_lt r.consecutive_rejections 5) [
      | yes some_left ↦ rw (c.is_degraded (omega arith) some_left) (λ h. omega arith, λ h. refl)
      | no all ↦ rw (c.is_suspended (omega arith)) (λ h. cc, λ h. absurd (omega arith))
    ]
  ]

  -- In every state of the engine and for every record in it: the approved and the rejected proposals add up to
  -- the submitted ones; the streak of rejections is at most their number, and it alone decides the standing:
  -- active below 3, degraded at 3 and 4, suspended from 5 on. The agent is eligible exactly below 5.
  pub Reachable-IsConsistent :
      (m : Dict (AgentPerformanceRecord Num)) (id : String) (r : AgentPerformanceRecord Num)
      → Reachable m
      → lookup id m ≡ some r
      → IsConsistent r × ((is_agent_eligible n id m ≡ true) ↔ (r.consecutive_rejections < 5))
  unfolding is_agent_eligible
  Reachable-IsConsistent m id r reached found =
      let c = Reachable-AllConsistent m reached id r found in
      (c, rw (found, is_agent_eligible) (eligible_iff r c))
