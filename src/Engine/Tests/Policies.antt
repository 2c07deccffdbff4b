-- ===== src/Engine/Tests/Policies.antt =====
-- engine/src/policy_verifier.ts: the theorems at concrete inputs.
use hikari.Prelude.{◌≡◌, ◌↔◌, refl, true, List, [], ◌∷◌, arith}
use hikari.Prelude.Int.{pos, ◌≤ℤ◌, ◌+ℤ◌, ◌-ℤ◌, ◌*ℤ◌, div_by}
use hikari.Engine.Policy.{new_policy_verifier, check_daily_reset, evaluate_proposal}
use hikari.Engine.Policy.Rules.{IsPermitted, evaluate_proposal-IsPermitted}
use hikari.Engine.Policy.DailyCap.{Request, spent_on, spent_on-le}
use hikari.Engine.Tests.{show, keeper_rules, vault_state, allocation}

first_check :
    (evaluate_proposal show 0
      (allocation 300)
      vault_state
      (new_policy_verifier 0 keeper_rules)).1.violations
    ≡ []
unfolding evaluate_proposal new_policy_verifier ◌+ℤ◌ ◌-ℤ◌ ◌*ℤ◌ div_by
first_check = refl

evaluate_proposal-IsPermitted_example :
    (let v = new_policy_verifier 0 keeper_rules in
      let before = check_daily_reset 5 v in
      let result = (evaluate_proposal show 5 (allocation 300) vault_state v).1 in
      ((result.approved ≡ true)
        ↔ IsPermitted before.rules before.daily_spent_stroops (allocation 300) vault_state)
      × ((result.requires_human_approval ≡ true)
          ↔ (before.rules.human_approval_threshold_stroops ≤ℤ pos 300)))
evaluate_proposal-IsPermitted_example =
    evaluate_proposal-IsPermitted show 5 (allocation 300) vault_state
      (new_policy_verifier 0 keeper_rules)

abbrev requests : List Request
requests =
    record { now = 10; proposal = allocation 300; state = vault_state }
    ∷ record { now = 20; proposal = allocation 300; state = vault_state }
    ∷ record { now = 86_400_030; proposal = allocation 300; state = vault_state }
    ∷ []

-- The second request of the first day would breach the cap of 500.
first_day : spent_on show 0 requests (new_policy_verifier 0 keeper_rules) ≡ pos 300
unfolding spent_on evaluate_proposal new_policy_verifier ◌+ℤ◌ ◌-ℤ◌ ◌*ℤ◌ div_by
first_day = refl

spent_on-le_example : spent_on show 0 requests (new_policy_verifier 0 keeper_rules) ≤ℤ pos 500
spent_on-le_example = spent_on-le show 0 keeper_rules requests 0 (omega arith) (omega arith)
