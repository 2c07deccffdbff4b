-- ===== src/Agents/Reserve.antt =====
-- agents/src: a proposal that the risk and the execution agent make keeps the reserve of the policy verifier.
use hikari.Prelude.{
  ℕ, ◌-◌, ◌*◌, ◌/◌, ◌≤◌, ◌<◌, ◌≡◌, refl, sym, ◌∙◌, ap, inl, inr, Bool-cases, true, false, List, ◌∷◌,
  Option-cases, some, arith,
}
use hikari.Prelude.Int.{ℤ, pos, negsuc, leb_ℤ, ◌≤ℤ◌, ◌-ℤ◌, ◌*ℤ◌, div_by, div_by-pos, pos-*ℤ, pos--ℤ}
use hikari.Prelude.Text.{String, eq_refl}
use hikari.Engine.Types.{ActionProposal, ProtocolState, PolicyRules, allocate}
use hikari.Engine.Policy.Rules.{KeepsReserve}
use hikari.Agents.{RankedStrategy, RiskAssessment, evaluate_exposure, find_strategy, build_proposal}

-- A quarter of what is above the reserve leaves the reserve.
quarter :
    (t n : ℕ)
    → t * 15 / 100 < n
    → (let amount = (n - t * 15 / 100) * 25 / 100 in (amount ≤ n) × (15 * t ≤ (n - amount) * 100))
quarter t n h = (omega arith, omega arith)

above_pos : (idle : ℤ) (r : ℕ) → leb_ℤ idle (pos r) ≡ false → (n : ℕ) × (idle ≡ pos n) × (r < n)
above_pos (pos n) r h = (n, refl, ground arith)
above_pos (negsuc n) r h = absurd (ground arith)

quarter_of : (n r : ℕ) → r < n → div_by ((pos n -ℤ pos r) *ℤ pos 25) 100 ≡ pos ((n - r) * 25 / 100)
quarter_of n r h =
    rw (pos--ℤ n r (omega arith), pos-*ℤ (n - r) 25, div_by-pos ((n - r) * 25) 100) refl

-- the amount that the risk agent recommends
abbrev recommended : ProtocolState → ℤ
recommended state =
    div_by
      ((state.idle_assets_stroops -ℤ div_by (state.total_assets_stroops *ℤ pos 15) 100) *ℤ pos 25)
      100

quarter-KeepsReserve :
    (state : ProtocolState) (rules : PolicyRules) (p : ActionProposal) (t n : ℕ)
    → state.total_assets_stroops ≡ pos t
    → rules.min_idle_reserve_percentage ≡ pos 15
    → state.idle_assets_stroops ≡ pos n
    → t * 15 / 100 < n
    → p.amount_stroops ≡ pos ((n - t * 15 / 100) * 25 / 100)
    → KeepsReserve rules p state
quarter-KeepsReserve state rules p t n total rule idle more sized =
    let (available, floor) = quarter t n more in
    record {
      available = rw (sized, idle) (omega (arith, available));
      floor = λ some_assets.
          rw
            (
              sized,
              idle,
              rule,
              total,
              pos-*ℤ 15 t,
              pos--ℤ n ((n - t * 15 / 100) * 25 / 100) available,
              pos-*ℤ (n - (n - t * 15 / 100) * 25 / 100) 100,
            )
            (omega (arith, floor));
    }

recommended_of :
    (state : ProtocolState) (t n : ℕ)
    → state.total_assets_stroops ≡ pos t
    → state.idle_assets_stroops ≡ pos n
    → t * 15 / 100 < n
    → recommended state ≡ pos ((n - t * 15 / 100) * 25 / 100)
recommended_of state t n total idle more =
    rw (total, idle, pos-*ℤ t 15, div_by-pos (t * 15) 100) (quarter_of n (t * 15 / 100) more)

recommended-KeepsReserve :
    (state : ProtocolState) (rules : PolicyRules) (p : ActionProposal) (t : ℕ)
    → state.total_assets_stroops ≡ pos t
    → rules.min_idle_reserve_percentage ≡ pos 15
    → p.amount_stroops ≡ recommended state
    → leb_ℤ state.idle_assets_stroops (div_by (state.total_assets_stroops *ℤ pos 15) 100) ≡ false
    → KeepsReserve rules p state
recommended-KeepsReserve state rules p t total rule amount above =
    let reserve : div_by (state.total_assets_stroops *ℤ pos 15) 100 ≡ pos (t * 15 / 100) =
      rw (total, pos-*ℤ t 15, div_by-pos (t * 15) 100) refl in
    let (n, idle, more) =
      above_pos state.idle_assets_stroops (t * 15 / 100)
        (sym (ap (leb_ℤ state.idle_assets_stroops) reserve) ∙ above) in
    quarter-KeepsReserve state rules p t n total rule idle more
      (amount ∙ recommended_of state t n total idle more)

find_strategy-first :
    (s : RankedStrategy) (rest : List RankedStrategy)
    → find_strategy s.strategy_id (s ∷ rest) ≡ some s
unfolding find_strategy
find_strategy-first s rest = rw (eq_refl s.strategy_id)

some_inj : {a b : RankedStrategy} → some a ≡ some b → a ≡ b
some_inj e = cc

module _ (show percent percent2 : ℤ → String) (now : ℕ) where
  proposed :
      (risk : RiskAssessment) (ranked : List RankedStrategy) (p : ActionProposal)
      → build_proposal show percent2 now risk ranked ≡ some p
      → (risk.safe_to_rebalance ≡ true)
        × (leb_ℤ risk.max_recommended_allocation_stroops (pos 0) ≡ false)
        × (target : RankedStrategy) × (find_strategy risk.target_strategy_id ranked ≡ some target)
        × (p.amount_stroops ≡ risk.max_recommended_allocation_stroops)
        × (p.target_strategy ≡ target.strategy_id)
        × (p.expected_yield_bps ≡ target.nominal_apy_bps)
        × (p.action_type ≡ allocate)
  unfolding build_proposal
  proposed risk ranked p h = elim (Bool-cases risk.safe_to_rebalance) [
    | inr unsafe ↦ let none_made = rw (unsafe, build_proposal) at h in cc
    | inl safe ↦ elim (Bool-cases (leb_ℤ risk.max_recommended_allocation_stroops (pos 0))) [
      | inl nothing ↦ absurd (ground (arith, h, nothing))
      | inr positive ↦ elim (Option-cases (find_strategy risk.target_strategy_id ranked)) [
        | inl unknown ↦ absurd (ground (arith, h, safe, positive, unknown))
        | inr (target, found) ↦ (
          safe,
          positive,
          target,
          found,
          ground (arith, h, safe, positive, found),
          ground (arith, h, safe, positive, found),
          ground (arith, h, safe, positive, found),
          ground (arith, h, safe, positive, found),
        )
      ]
    ]
  ]

  assessed :
      (state : ProtocolState) (top : RankedStrategy) (rest : List RankedStrategy)
      → (let risk = evaluate_exposure show percent state (top ∷ rest) in
          risk.safe_to_rebalance ≡ true
          → (leb_ℤ state.idle_assets_stroops (div_by (state.total_assets_stroops *ℤ pos 15) 100)
              ≡ false)
            × (risk.max_recommended_allocation_stroops ≡ recommended state)
            × (risk.target_strategy_id ≡ top.strategy_id))
  unfolding evaluate_exposure
  assessed state top rest safe = (ground arith, ground arith, ground arith)

  -- If the execution agent proposes anything from the risk agent's assessment of a vault with t stroops, the
  -- proposal is a positive allocation to the strategy ranked first, and it keeps the policy verifier's reserve
  -- rule at the engine's minimum of 15 percent.
  pub build_proposal-KeepsReserve :
      (state : ProtocolState) (top : RankedStrategy) (rest : List RankedStrategy) (t : ℕ)
      (rules : PolicyRules) (p : ActionProposal)
      → build_proposal show percent2 now
          (evaluate_exposure show percent state (top ∷ rest))
          (top ∷ rest)
        ≡ some p
      → state.total_assets_stroops ≡ pos t
      → rules.min_idle_reserve_percentage ≡ pos 15
      → (pos 1 ≤ℤ p.amount_stroops)
        × (p.action_type ≡ allocate)
        × (p.target_strategy ≡ top.strategy_id)
        × (p.expected_yield_bps ≡ top.nominal_apy_bps)
        × KeepsReserve rules p state
  build_proposal-KeepsReserve state top rest t rules p h total rule =
      let risk = evaluate_exposure show percent state (top ∷ rest) in
      let (safe, positive, target, found, amount, to, yields, kind) =
        proposed risk (top ∷ rest) p h in
      let (above, sized, chosen) = assessed state top rest safe in
      let own : target ≡ top = some_inj (
        sym found
        ∙ ap (λ id. find_strategy id (top ∷ rest)) chosen
        ∙ find_strategy-first top rest) in
      (
        rw amount (ground (arith, positive)),
        kind,
        to ∙ ap RankedStrategy.strategy_id own,
        yields ∙ ap RankedStrategy.nominal_apy_bps own,
        recommended-KeepsReserve state rules p t total rule (amount ∙ sized) above,
      )
