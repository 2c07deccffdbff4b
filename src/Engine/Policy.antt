-- ===== src/Engine/Policy.antt =====
-- engine/src/policy_verifier.ts: the rules that a proposal must meet, and the cap on a day's spending. The
-- clock's milliseconds are the argument `now`, and `show` is an integer in a template.
pub mod Rules
pub mod DailyCap
use hikari.Prelude.{
  ℕ, zero, ◌/◌, Bool, true, false, not, ◌&&◌, List, [], ◌∷◌, ◌++◌, if◌then◌else◌, ltb, leb,
}
use hikari.Prelude.Int.{ℤ, pos, pos_part, ltb_ℤ, leb_ℤ, ◌+ℤ◌, ◌-ℤ◌, ◌*ℤ◌, div_by}
use hikari.Prelude.Text.{String, ◌⊕◌, ◌==◌}
use hikari.Engine.Types.{
  ActionProposal, ActionType, ProtocolState, PolicyRules, PolicyEvaluation, allocate, deallocate,
  harvest, emergency_exit,
}

-- `set.has(x)`
unfoldable pub has : List String → String → Bool
has [] x = false
has (y ∷ set) x = let rest = has set x in if y == x then true else rest

pub record PolicyVerifier : Type 0 where
  pub rules : PolicyRules
  pub daily_spent_stroops : ℤ
  pub last_reset_day : ℕ

-- Math.floor(Date.now() / (1000 * 60 * 60 * 24))
abbrev pub day_of : ℕ → ℕ
day_of now = now / 86_400_000

unfoldable pub new_policy_verifier : ℕ → PolicyRules → PolicyVerifier
new_policy_verifier now rules = record {
  rules = rules;
  daily_spent_stroops = pos 0;
  last_reset_day = day_of now;
}

unfoldable pub check_daily_reset : ℕ → PolicyVerifier → PolicyVerifier
check_daily_reset now v =
    if ltb v.last_reset_day (day_of now)
    then record v { daily_spent_stroops = pos 0; last_reset_day = day_of now }
    else v

unfoldable pub record_manual_approval : ℕ → ℤ → PolicyVerifier → PolicyVerifier
unfolding check_daily_reset
record_manual_approval now amount_stroops v =
    let v = check_daily_reset now v in
    record v { daily_spent_stroops = v.daily_spent_stroops +ℤ amount_stroops }

unfoldable pub get_daily_spent : ℕ → PolicyVerifier → PolicyVerifier × ℤ
unfolding check_daily_reset
get_daily_spent now v = let v = check_daily_reset now v in (v, v.daily_spent_stroops)

abbrev pub is_allocate : ActionType → Bool
is_allocate allocate = true
is_allocate deallocate = false
is_allocate harvest = false
is_allocate emergency_exit = false

-- `if (bad) violations.push(message)`
abbrev pub violation : Bool → String → List String
violation bad message = if bad then message ∷ [] else []

-- the idle assets that stay after an allocation, in percent of all assets
abbrev pub remaining_ratio : ActionProposal → ProtocolState → ℤ
remaining_ratio p state =
    div_by ((state.idle_assets_stroops -ℤ p.amount_stroops) *ℤ pos 100)
      (pos_part state.total_assets_stroops)

-- `violations.length === 0`
abbrev pub no_violation : List String → Bool
no_violation [] = true
no_violation (x ∷ xs) = false

module _ (show : ℤ → String) where
  -- 6. Check Liquidity Reserve Constraints (for allocations)
  unfoldable pub reserve_violations : PolicyRules → ActionProposal → ProtocolState → List String
  reserve_violations rules p state =
      if is_allocate p.action_type
      then (if ltb_ℤ state.idle_assets_stroops p.amount_stroops
          then ("Insufficient idle vault assets. Requested: "
              ⊕ show p.amount_stroops
              ⊕ ", Idle available: "
              ⊕ show state.idle_assets_stroops)
            ∷ []
          else if ltb_ℤ (pos 0) state.total_assets_stroops
          then violation (ltb_ℤ (remaining_ratio p state) rules.min_idle_reserve_percentage) (
              "Allocation would reduce vault idle reserve to "
              ⊕ show (remaining_ratio p state)
              ⊕ "%, below minimum "
              ⊕ show rules.min_idle_reserve_percentage
              ⊕ "%")
          else [])
      else []

  -- the violations of the checks 1 to 6, in their order
  unfoldable pub violations_of : PolicyVerifier → ActionProposal → ProtocolState → List String
  unfolding reserve_violations has
  violations_of v p state =
      let rules = v.rules in
      violation (not (has rules.allowed_agents p.proposer_agent))
        ("Agent '" ⊕ p.proposer_agent ⊕ "' is not in authorized agents list")
      ++ (violation (not (has rules.allowed_strategies p.target_strategy))
            ("Target strategy '" ⊕ p.target_strategy ⊕ "' is not in allowed strategies list")
          ++ (violation (ltb_ℤ rules.max_transaction_size_stroops p.amount_stroops) (
                "Amount "
                ⊕ show p.amount_stroops
                ⊕ " exceeds maximum transaction limit of "
                ⊕ show rules.max_transaction_size_stroops)
              ++ (violation
                    (ltb_ℤ rules.daily_spend_cap_stroops
                      (v.daily_spent_stroops +ℤ p.amount_stroops))
                    ("Amount would breach daily spend cap of "
                      ⊕ show rules.daily_spend_cap_stroops
                      ⊕ ". Current spent: "
                      ⊕ show v.daily_spent_stroops)
                  ++ (violation (ltb_ℤ rules.max_slippage_bps p.max_slippage_bps) (
                        "Requested slippage "
                        ⊕ show p.max_slippage_bps
                        ⊕ " bps exceeds maximum permitted "
                        ⊕ show rules.max_slippage_bps
                        ⊕ " bps")
                      ++ (reserve_violations rules p state)))))

  unfoldable pub evaluate_proposal :
      ℕ → ActionProposal → ProtocolState → PolicyVerifier → PolicyVerifier × PolicyEvaluation
  unfolding check_daily_reset violations_of
  evaluate_proposal now p state v =
      let v = check_daily_reset now v in
      let violations = violations_of v p state in
      let human = leb_ℤ v.rules.human_approval_threshold_stroops p.amount_stroops in
      let approved = no_violation violations in
      let automatic = approved && not human in
      (
        (if automatic
            then record v { daily_spent_stroops = v.daily_spent_stroops +ℤ p.amount_stroops }
            else v),
        record {
          approved = approved;
          requires_human_approval = human;
          violations = violations;
          notes =
              (if human
                then ("Amount "
                    ⊕ show p.amount_stroops
                    ⊕ " exceeds human approval threshold of "
                    ⊕ show v.rules.human_approval_threshold_stroops
                    ⊕ ". Operator signature required.")
                  ∷ []
                else [])
              ++ (if automatic then "Proposal approved automatically for execution." ∷ [] else []);
        },
      )
