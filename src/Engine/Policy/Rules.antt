-- ===== src/Engine/Policy/Rules.antt =====
-- engine/src/policy_verifier.ts: a proposal is approved exactly when it meets every rule.
use hikari.Prelude.{
  ℕ, ◌*◌, ◌/◌, ◌≤◌, ◌<◌, ◌≡◌, ◌↔◌, ◌⊎◌, ◌≢◌, refl, ap, inl, inr, Bool, true, false, not, List, [],
  ◌∷◌, ◌++◌, if◌then◌else◌, arith,
}
use hikari.Prelude.Int.{
  ℤ, pos, negsuc, pos_part, ltb_ℤ, ◌≤ℤ◌, ◌+ℤ◌, ◌-ℤ◌, ◌*ℤ◌, div_by, int_laws, div_by-pos, pos-*ℤ,
}
use hikari.Prelude.Text.{String}
use hikari.Engine.Types.{
  ActionProposal, ActionType, ProtocolState, PolicyRules, allocate, deallocate, harvest,
  emergency_exit,
}
use hikari.Engine.Policy.{
  PolicyVerifier, has, check_daily_reset, violation, reserve_violations, violations_of,
  no_violation, evaluate_proposal, is_allocate, remaining_ratio,
}

-- An allocation leaves enough idle: in whole percents of the assets, where the vault has any.
pub record KeepsReserve (rules : PolicyRules) (p : ActionProposal) (s : ProtocolState)
    : Type 0 where
  pub available : p.amount_stroops ≤ℤ s.idle_assets_stroops
  pub floor :
      (pos 1 ≤ℤ s.total_assets_stroops)
      → rules.min_idle_reserve_percentage *ℤ s.total_assets_stroops
        ≤ℤ (s.idle_assets_stroops -ℤ p.amount_stroops) *ℤ pos 100

-- What the rules ask of a proposal when `spent` has been spent today.
pub record IsPermitted (rules : PolicyRules) (spent : ℤ) (p : ActionProposal) (s : ProtocolState)
    : Type 0 where
  pub agent : has rules.allowed_agents p.proposer_agent ≡ true
  pub strategy : has rules.allowed_strategies p.target_strategy ≡ true
  pub size : p.amount_stroops ≤ℤ rules.max_transaction_size_stroops
  pub cap : spent +ℤ p.amount_stroops ≤ℤ rules.daily_spend_cap_stroops
  pub slippage : p.max_slippage_bps ≤ℤ rules.max_slippage_bps
  pub reserve : p.action_type ≡ allocate → KeepsReserve rules p s

le_div : (a m t : ℕ) → 0 < t → (m ≤ a / t) ↔ (m * t ≤ a)
le_div a m t k = (λ h. grind arith, λ h. grind arith)

-- A floor division is at least m exactly when the product is.
div_by-le : (a m : ℤ) (t : ℕ) → pos 0 ≤ℤ a → 0 < t → (m ≤ℤ div_by a t) ↔ (m *ℤ pos t ≤ℤ a)
div_by-le (pos a) (pos m) t h k = rw (div_by-pos a t, pos-*ℤ m t) (ground (arith, le_div a m t k))
div_by-le (pos a) (negsuc m) t h k =
    rw (div_by-pos a t) (λ g. unfold ◌*ℤ◌ in grind arith, λ g. omega arith)
div_by-le (negsuc a) m t h k = absurd (omega arith)

not_ltb : (a b : ℤ) → (ltb_ℤ a b ≡ false) ↔ (b ≤ℤ a)
not_ltb a b = (λ h. ground arith, λ h. ground arith)

-- The floor of the reserve, without a division.
floor_iff :
    (m rest total : ℤ)
    → pos 0 ≤ℤ rest
    → pos 1 ≤ℤ total
    → (ltb_ℤ (div_by (rest *ℤ pos 100) (pos_part total)) m ≡ false)
      ↔ (m *ℤ total ≤ℤ rest *ℤ pos 100)
floor_iff m (negsuc r) total h k = absurd (omega arith)
floor_iff m (pos r) (negsuc t) h k = absurd (omega arith)
floor_iff m (pos r) (pos t) h k = rw (pos-*ℤ r 100) (
    let test = not_ltb (div_by (pos (r * 100)) t) m in
    let quotient = div_by-le (pos (r * 100)) m t (omega arith) (omega arith) in
    (λ g. quotient.0 (test.0 g), λ g. test.1 (quotient.1 g)))

positive : (t : ℤ) → (ltb_ℤ (pos 0) t ≡ true) ↔ (pos 1 ≤ℤ t)
positive t = (λ h. ground arith, λ h. ground arith)

nested_none :
    (a b c : Bool) (x y : String)
    → (no_violation (if a then x ∷ [] else if b then violation c y else []) ≡ true)
      ↔ ((a ≡ false) × (b ≡ true → c ≡ false))
nested_none true b c x y = (λ h. cc, λ h. cc)
nested_none false true true x y = (λ h. cc, λ h. cc (h.1 refl))
nested_none false true false x y = (λ h. (refl, λ k. refl), λ h. refl)
nested_none false false c x y = (λ h. (refl, λ k. cc), λ h. refl)

violation_none :
    (b : Bool) (m : String) (rest : List String)
    → (no_violation (violation b m ++ rest) ≡ true) ↔ ((b ≡ false) × (no_violation rest ≡ true))
violation_none true m rest = (λ h. cc, λ h. cc)
violation_none false m rest = (λ h. (refl, h), λ h. h.1)

allocate-cases :
    (a : ActionType)
    → ((a ≡ allocate) × (is_allocate a ≡ true)) ⊎ ((a ≢ allocate) × (is_allocate a ≡ false))
allocate-cases allocate = inl (refl, refl)
allocate-cases deallocate = inr (λ e. cc, refl)
allocate-cases harvest = inr (λ e. cc, refl)
allocate-cases emergency_exit = inr (λ e. cc, refl)

not-false : (b : Bool) → not b ≡ false → b ≡ true
not-false true h = refl
not-false false h = cc

module _ (show : ℤ → String) (rules : PolicyRules) (p : ActionProposal) (s : ProtocolState) where
  ratio_floor :
      p.amount_stroops ≤ℤ s.idle_assets_stroops
      → pos 1 ≤ℤ s.total_assets_stroops
      → (ltb_ℤ (remaining_ratio p s) rules.min_idle_reserve_percentage ≡ false) ↔ (
          rules.min_idle_reserve_percentage *ℤ s.total_assets_stroops
          ≤ℤ (s.idle_assets_stroops -ℤ p.amount_stroops) *ℤ pos 100)
  ratio_floor available some_assets =
      floor_iff rules.min_idle_reserve_percentage (s.idle_assets_stroops -ℤ p.amount_stroops)
        s.total_assets_stroops (omega int_laws) some_assets

  reserve_violations-KeepsReserve :
      (no_violation (reserve_violations show rules p s) ≡ true)
      ↔ (p.action_type ≡ allocate → KeepsReserve rules p s)
  unfolding reserve_violations
  reserve_violations-KeepsReserve = elim (allocate-cases p.action_type) [
    | inr (other, e) ↦ rw e (λ h. λ k. absurd (other k), λ h. refl)
    | inl (same, e) ↦
        let idle_iff = not_ltb s.idle_assets_stroops p.amount_stroops in
        let positive_iff = positive s.total_assets_stroops in
        let shape =
          nested_none (ltb_ℤ s.idle_assets_stroops p.amount_stroops)
            (ltb_ℤ (pos 0) s.total_assets_stroops)
            (ltb_ℤ (remaining_ratio p s) rules.min_idle_reserve_percentage) in
        rw e (
          λ h.
              let parts = (shape _ _).0 h in
              let enough = idle_iff.0 parts.0 in
              λ k. record {
                available = enough;
                floor = λ some_assets.
                    (ratio_floor enough some_assets).0 (parts.1 (positive_iff.1 some_assets));
              },
          λ h.
              let keeps = h same in
              (shape _ _).1 (
                idle_iff.1 keeps.available,
                λ b.
                    let some_assets = positive_iff.0 b in
                    (ratio_floor keeps.available some_assets).1 (keeps.floor some_assets),
              ),
        )
  ]

  IsPermitted-iff :
      (spent : ℤ) (day : ℕ)
      → (let v : PolicyVerifier = record {
        rules = rules;
        daily_spent_stroops = spent;
        last_reset_day = day;
      } in
          no_violation (violations_of show v p s) ≡ true)
        ↔ IsPermitted rules spent p s
  unfolding violations_of
  IsPermitted-iff spent day =
      let agents = has rules.allowed_agents p.proposer_agent in
      let strategies = has rules.allowed_strategies p.target_strategy in
      let large = ltb_ℤ rules.max_transaction_size_stroops p.amount_stroops in
      let over = ltb_ℤ rules.daily_spend_cap_stroops (spent +ℤ p.amount_stroops) in
      let slips = ltb_ℤ rules.max_slippage_bps p.max_slippage_bps in
      let size_iff = not_ltb rules.max_transaction_size_stroops p.amount_stroops in
      let cap_iff = not_ltb rules.daily_spend_cap_stroops (spent +ℤ p.amount_stroops) in
      let slippage_iff = not_ltb rules.max_slippage_bps p.max_slippage_bps in
      (
        λ h.
            let a = (violation_none (not agents) _ _).0 h in
            let b = (violation_none (not strategies) _ _).0 a.1 in
            let c = (violation_none large _ _).0 b.1 in
            let d = (violation_none over _ _).0 c.1 in
            let e = (violation_none slips _ _).0 d.1 in
            record {
              agent = not-false agents a.0;
              strategy = not-false strategies b.0;
              size = size_iff.0 c.0;
              cap = cap_iff.0 d.0;
              slippage = slippage_iff.0 e.0;
              reserve = reserve_violations-KeepsReserve.0 e.1;
            },
        λ h. (violation_none (not agents) _ _).1 (
          ap not h.agent,
          (violation_none (not strategies) _ _).1 (
            ap not h.strategy,
            (violation_none large _ _).1 (
              size_iff.1 h.size,
              (violation_none over _ _).1 (
                cap_iff.1 h.cap,
                (violation_none slips _ _).1
                    (slippage_iff.1 h.slippage, reserve_violations-KeepsReserve.1 h.reserve),
              ),
            ),
          ),
        ),
      )

-- evaluateProposal approves a proposal, after the daily reset, exactly when every rule allows it: agent and
-- strategy listed, amount within the transaction limit and the rest of the day's cap, slippage within its
-- bound, and for an allocation the amount idle and the idle share of the assets afterwards at least the
-- minimum percentage. It asks for a human exactly when the amount reaches the threshold.
pub evaluate_proposal-IsPermitted :
    (show : ℤ → String) (now : ℕ) (p : ActionProposal) (s : ProtocolState) (v : PolicyVerifier)
    → (let before = check_daily_reset now v in
        let result = (evaluate_proposal show now p s v).1 in
        ((result.approved ≡ true) ↔ IsPermitted before.rules before.daily_spent_stroops p s)
        × ((result.requires_human_approval ≡ true)
            ↔ (before.rules.human_approval_threshold_stroops ≤ℤ p.amount_stroops)))
unfolding evaluate_proposal
evaluate_proposal-IsPermitted show now p s v =
    let before = check_daily_reset now v in
    (
      IsPermitted-iff show before.rules p s before.daily_spent_stroops before.last_reset_day,
      (λ h. ground arith, λ h. ground arith),
    )
