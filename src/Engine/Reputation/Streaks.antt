-- ===== src/Engine/Reputation/Streaks.antt =====
-- engine/src/agents/reputation.ts: five rejections in a row suspend any agent, and one approval restores it.
use hikari.Prelude.{ℕ, zero, suc, ◌≤◌, ◌≡◌, refl, ap, Bool, true, false, some, arith}
use hikari.Prelude.Number.{Number}
use hikari.Prelude.Dict.{Dict, lookup, lookup-insert}
use hikari.Prelude.Text.{String, eq_refl}
use hikari.Engine.Reputation.{
  suspended, AgentPerformanceRecord, record_or_unknown, apply_outcome, record_proposal_outcome,
  is_agent_eligible,
}

module _ (n : Number) (two_decimals : Number.Num n → Number.Num n)
    (max : Number.Num n → Number.Num n → Number.Num n) where
  open n use {Num}

  module _ (id : String) (alpha slippage : Num) (now : ℕ) where
    abbrev pub outcome :
        Bool → Dict (AgentPerformanceRecord Num) → Dict (AgentPerformanceRecord Num)
    outcome approved m =
        (record_proposal_outcome n two_decimals max id approved alpha slippage now m).0

    -- so many rejections in a row
    abbrev pub reject : ℕ → Dict (AgentPerformanceRecord Num) → Dict (AgentPerformanceRecord Num)
    reject zero m = m
    reject (suc k) m = outcome false (reject k m)

    -- What is on record after an outcome.
    outcome-lookup :
        (approved : Bool) (m : Dict (AgentPerformanceRecord Num))
        → (let before =
              apply_outcome n approved alpha slippage now (record_or_unknown n id now m) in
            (r : AgentPerformanceRecord Num) × (lookup id (outcome approved m) ≡ some r)
            × (r.status ≡ before.status)
            × (r.consecutive_rejections ≡ before.consecutive_rejections))
    unfolding record_proposal_outcome
    outcome-lookup approved m = (
      (record_proposal_outcome n two_decimals max id approved alpha slippage now m).1,
      rw (lookup-insert id id _ m, eq_refl id),
      refl,
      refl,
    )

    record_or_unknown_known :
        (m : Dict (AgentPerformanceRecord Num)) {r : AgentPerformanceRecord Num}
        → lookup id m ≡ some r
        → record_or_unknown n id now m ≡ r
    record_or_unknown_known m found = rw (found, record_or_unknown)

    reject-streak :
        (k : ℕ) (m : Dict (AgentPerformanceRecord Num))
        → (r : AgentPerformanceRecord Num) × (lookup id (reject (suc k) m) ≡ some r)
          × (suc k ≤ r.consecutive_rejections)
          × (5 ≤ r.consecutive_rejections → r.status ≡ suspended)
    unfolding apply_outcome
    reject-streak zero m =
        let (r, found, status, streak) = outcome-lookup false m in
        (r, found, omega (arith, streak), λ h. ground (arith, status, streak))
    reject-streak (suc k) m =
        let (before, known, long, low) = reject-streak k m in
        let (r, found, status, streak) = outcome-lookup false (reject (suc k) m) in
        (
          r,
          found,
          omega (
            arith,
            streak,
            ap AgentPerformanceRecord.consecutive_rejections
                (record_or_unknown_known (reject (suc k) m) known),
          ),
          λ h. ground (arith, status, streak),
        )

    -- From any state: after five or more rejections in a row an agent is not eligible, and after one more outcome,
    -- an approval, it is eligible again.
    pub reject-is_agent_eligible :
        (k : ℕ) (m : Dict (AgentPerformanceRecord Num))
        → 5 ≤ k
        → (is_agent_eligible n id (reject k m) ≡ false)
          × (is_agent_eligible n id (outcome true (reject k m)) ≡ true)
    unfolding apply_outcome is_agent_eligible
    reject-is_agent_eligible zero m h = absurd (omega arith)
    reject-is_agent_eligible (suc k) m h =
        let (r, found, long, low) = reject-streak k m in
        let (after, restored, status, streak) = outcome-lookup true (reject (suc k) m) in
        (rw (found, is_agent_eligible, low (omega arith)), rw (restored, is_agent_eligible, status))
