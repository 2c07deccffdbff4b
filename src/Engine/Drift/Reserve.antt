-- ===== src/Engine/Drift/Reserve.antt =====
-- engine/src/agents/keeper_bot.ts: a rebalancing that the keeper proposes leaves the reserve, and where it
-- takes all that is above the reserve, the policy verifier refuses it for a fraction of a percent.
use native.Mathlib.Nat.{mul_comm}
use native.Mathlib.Decide.{dec_lt}
use hikari.Prelude.{
  ℕ, suc, ◌*◌, ◌/◌, ◌%◌, ◌≡◌, ◌≢◌, ◌↔◌, refl, ap, ◌∙◌, inl, inr, Bool-cases, Bool, true, false,
  ◌&&◌, none, some, if◌then◌else◌, arith,
}
use hikari.Prelude.Int.{
  ℤ, pos, pos_part, neg_part, ltb_ℤ, leb_ℤ, eq_ℤ, ◌≤ℤ◌, ◌+ℤ◌, ◌-ℤ◌, ◌*ℤ◌, div_by-pos, pos-*ℤ,
  +ℤ_parts, -ℤ_parts, eq_of_parts,
}
use hikari.Prelude.Text.{String}
use hikari.Engine.Types.{ActionProposal, ProtocolState, KeeperConfig, PolicyRules, allocate}
use hikari.Engine.Policy.{PolicyVerifier, check_daily_reset, evaluate_proposal}
use hikari.Engine.Policy.Rules.{KeepsReserve, evaluate_proposal-IsPermitted}
use hikari.Engine.Drift.{
  RebalanceCheck, quotient, min_required_reserve, final_amount, drift_of, rebalance_of, truthy,
  evaluate_rebalance,
}

clamped :
    (idle reserve amount : ℤ)
    → (let allocatable = if ltb_ℤ reserve idle then idle -ℤ reserve else pos 0 in
        let final = if ltb_ℤ allocatable amount then allocatable else amount in
        ltb_ℤ (pos 0) final ≡ true → (final +ℤ reserve ≤ℤ idle) × (final ≤ℤ amount))
unfolding ◌+ℤ◌ ◌-ℤ◌
clamped idle reserve amount h = ground arith

chosen :
    (a b x y z : Bool) (A B C D : ℕ × RebalanceCheck) {p : ActionProposal}
    → A.1.proposal ≡ none
    → B.1.proposal ≡ none
    → D.1.proposal ≡ none
    → (if a then A else if b then B else if (x && y) && z then C else D).1.proposal ≡ some p
    → (x ≡ true) × (z ≡ true) × (C.1.proposal ≡ some p)
chosen true b x y z A B C D nA nB nD h = cc
chosen false true x y z A B C D nA nB nD h = cc
chosen false false false y z A B C D nA nB nD h = cc
chosen false false true false z A B C D nA nB nD h = cc
chosen false false true true false A B C D nA nB nD h = cc
chosen false false true true true A B C D nA nB nD h = (refl, refl, h)

add-eq-le : (a : ℤ) (b : ℕ) (c : ℤ) → a +ℤ pos b ≡ c → a ≤ℤ c
add-eq-le a b c e = omega (arith, +ℤ_parts a (pos b), ap pos_part e, ap neg_part e)

-- The reserve in whole stroops, against the percentage asked.
floored :
    (idle amount : ℤ) (t m : ℕ)
    → amount +ℤ pos (t * m / 100) ≡ idle
    → (pos m *ℤ pos t ≤ℤ (idle -ℤ amount) *ℤ pos 100) ↔ (t * m % 100 ≡ 0)
floored idle amount t m e =
    let rest : idle -ℤ amount ≡ pos (t * m / 100) = eq_of_parts _ _ (
      omega (
        arith,
        +ℤ_parts amount (pos (t * m / 100)),
        -ℤ_parts idle amount,
        ap pos_part e,
        ap neg_part e,
      )) in
    rw (rest, pos-*ℤ m t, pos-*ℤ (t * m / 100) 100, mul_comm m t)
      (λ h. omega arith, λ h. omega arith)

check_daily_reset-rules : (now : ℕ) (v : PolicyVerifier) → (check_daily_reset now v).rules ≡ v.rules
unfolding check_daily_reset
check_daily_reset-rules now v = ground arith

module _ {N : Type 0} (show : ℤ → String) (now : ℕ) (config : KeeperConfig N)
    (state : ProtocolState) where
  -- a proposal is made from the drift only, with a positive amount
  proposal_of :
      (cycle : ℕ) (p : ActionProposal)
      → (evaluate_rebalance show now config state cycle).1.proposal ≡ some p
      → (p ≡ rebalance_of show now config state (drift_of config state) (suc cycle))
        × (ltb_ℤ (pos 0) (final_amount config state (drift_of config state)) ≡ true)
        × (leb_ℤ config.rebalance_threshold_bps (drift_of config state).max_drift_bps ≡ true)
  unfolding evaluate_rebalance
  proposal_of cycle p h =
      let d = drift_of config state in
      let (x, y, e) =
        chosen (eq_ℤ state.total_assets_stroops (pos 0))
          (ltb_ℤ (quotient (state.idle_assets_stroops *ℤ pos 100) state.total_assets_stroops)
            config.min_reserve_ratio_percentage)
          (leb_ℤ config.rebalance_threshold_bps d.max_drift_bps) (truthy d.strategy)
          (ltb_ℤ (pos 0) (final_amount config state d)) _ _ _ _ refl refl refl h in
      (cc, y, x)

  -- A proposal takes a positive amount out of what is idle above the reserve, the floor of the minimum percentage
  -- of all assets; it is the smaller of half the drift and all that is above the reserve.
  pub evaluate_rebalance-reserve :
      (cycle : ℕ) (p : ActionProposal)
      → (evaluate_rebalance show now config state cycle).1.proposal ≡ some p
      → (pos 1 ≤ℤ p.amount_stroops)
        × (p.amount_stroops +ℤ min_required_reserve config state ≤ℤ state.idle_assets_stroops)
        × (p.amount_stroops ≤ℤ (drift_of config state).amount)
        × (p.action_type ≡ allocate)
        × (p.proposer_agent ≡ config.keeper_account)
  evaluate_rebalance-reserve cycle p h =
      let (own, positive, drifted) = proposal_of cycle p h in
      let bounds =
        clamped state.idle_assets_stroops (min_required_reserve config state)
          (drift_of config state).amount positive in
      rw own (ground (arith, positive), bounds.0, bounds.1, refl, refl)

  -- The policy verifier's reserve rule, with the same minimum percentage, on a proposal that takes all that is
  -- idle above the keeper's reserve: it is kept exactly when that percentage of the assets is a whole number.
  clamped-KeepsReserve :
      (t m : ℕ) (p : ActionProposal) (rules : PolicyRules)
      → pos 1 ≤ℤ p.amount_stroops
      → p.amount_stroops +ℤ min_required_reserve config state ≡ state.idle_assets_stroops
      → state.total_assets_stroops ≡ pos t
      → config.min_reserve_ratio_percentage ≡ pos m
      → rules.min_idle_reserve_percentage ≡ pos m
      → KeepsReserve rules p state ↔ (t * m % 100 ≡ 0)
  clamped-KeepsReserve t m p rules some_amount taken total pct rule =
      let reserve : min_required_reserve config state ≡ pos (t * m / 100) =
        rw (total, pct, pos-*ℤ t m, div_by-pos (t * m) 100) refl in
      let whole = floored state.idle_assets_stroops p.amount_stroops t m (rw (← reserve) taken) in
      (
        λ keeps. elim (dec_lt 0 t) [
          | no none_left ↦ let zero_t : t ≡ 0 = omega arith in rw zero_t (omega arith)
          | yes some_left ↦ whole.0 (rw (← rule, ← total) (keeps.floor (rw total (omega arith))))
        ],
        λ divides. record {
          available =
              add-eq-le p.amount_stroops (t * m / 100) state.idle_assets_stroops
                (rw (← reserve) taken);
          floor = λ some_assets. rw (rule, total) (whole.1 divides);
        },
      )

  -- The keeper proposes to allocate all that is idle above its reserve, t stroops are held, and the policy has the
  -- keeper's minimum of m percent: if m percent of t is not a whole number of stroops, the policy verifier does
  -- not approve the proposal.
  pub evaluate_rebalance-refused :
      (cycle t m : ℕ) (p : ActionProposal) (v : PolicyVerifier)
      → (evaluate_rebalance show now config state cycle).1.proposal ≡ some p
      → p.amount_stroops +ℤ min_required_reserve config state ≡ state.idle_assets_stroops
      → state.total_assets_stroops ≡ pos t
      → config.min_reserve_ratio_percentage ≡ pos m
      → v.rules.min_idle_reserve_percentage ≡ pos m
      → t * m % 100 ≢ 0
      → (evaluate_proposal show now p state v).1.approved ≡ false
  evaluate_rebalance-refused cycle t m p v h taken total pct rule odd =
      let (some_amount, below, drift, kind, agent) = evaluate_rebalance-reserve cycle p h in
      let rules_kept = check_daily_reset-rules now v in
      elim (Bool-cases (evaluate_proposal show now p state v).1.approved) [
        | inr refused ↦ refused
        | inl approved ↦
            let permitted = (evaluate_proposal-IsPermitted show now p state v).0.0 approved in
            absurd (
              odd (
                (clamped-KeepsReserve t m p (check_daily_reset now v).rules some_amount taken total
                    pct (ap PolicyRules.min_idle_reserve_percentage rules_kept ∙ rule)).0
                  (permitted.reserve kind)))
      ]
