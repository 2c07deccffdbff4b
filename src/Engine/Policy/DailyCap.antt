-- ===== src/Engine/Policy/DailyCap.antt =====
-- engine/src/policy_verifier.ts: what one day's proposals spend without a human.
use hikari.Prelude.{
  ℕ, ◌≤◌, ◌<◌, ◌≡◌, refl, inl, inr, Bool-cases, Bool, true, false, not, ◌&&◌, List, [], ◌∷◌,
  if◌then◌else◌, ltb, ◌==◌, ltb→lt, ap, ◌∙◌, arith,
}
use hikari.Prelude.Int.{ℤ, pos, ◌≤ℤ◌, ◌+ℤ◌, int_laws, pos-+ℤ}
use hikari.Prelude.Text.{String}
use hikari.Engine.Types.{ActionProposal, ProtocolState, PolicyRules, PolicyEvaluation}
use hikari.Engine.Policy.{
  PolicyVerifier, new_policy_verifier, day_of, check_daily_reset, evaluate_proposal,
}
use hikari.Engine.Policy.Rules.{IsPermitted, evaluate_proposal-IsPermitted}

-- A call of `evaluateProposal`.
pub record Request : Type 0 where
  pub now : ℕ
  pub proposal : ActionProposal
  pub state : ProtocolState

-- The calls come in the order of the clock, which has reached this day.
abbrev pub InOrder : ℕ → List Request → Type 0
InOrder day [] = Unit {0}
InOrder day (r ∷ rs) = (day ≤ day_of r.now) × InOrder (day_of r.now) rs

-- an amount, if it counts for this day and no human is asked
abbrev pub counted : ℕ → Request → PolicyEvaluation → ℤ
counted day r e =
    if (day_of r.now == day) && (e.approved && not e.requires_human_approval)
    then r.proposal.amount_stroops
    else pos 0

carried_adds :
    (last day d : ℕ) (spent amount : ℤ) (automatic : Bool)
    → last ≤ day
    → day ≤ d
    → (let before = if ltb last day then pos 0 else spent in
        let after = if automatic then before +ℤ amount else before in
        (if last == d then spent else pos 0) +ℤ (if (day == d) && automatic then amount else pos 0)
        ≤ℤ (if day == d then after else pos 0))
unfolding ◌+ℤ◌
carried_adds last day d spent amount true h k = ground arith
carried_adds last day d spent amount false h k = ground arith

counted_late :
    (day : ℕ) (r : Request) (e : PolicyEvaluation) → day < day_of r.now → counted day r e ≡ pos 0
counted_late day r e h = ground arith

add-le-chain : (a b c d cap : ℤ) → a +ℤ b ≤ℤ c → c +ℤ d ≤ℤ cap → a +ℤ (b +ℤ d) ≤ℤ cap
add-le-chain a b c d cap h k = omega int_laws

add-zero-le : (a cap : ℤ) → a ≤ℤ cap → a +ℤ pos 0 ≤ℤ cap
add-zero-le a cap h = omega int_laws

zero-add-le : (b : Bool) (a cap : ℤ) → (if b then pos 0 else pos 0) +ℤ a ≤ℤ cap → a ≤ℤ cap
zero-add-le true a cap h = omega int_laws
zero-add-le false a cap h = omega int_laws

if-le : (b : Bool) (a cap : ℤ) → pos 0 ≤ℤ cap → a ≤ℤ cap → (if b then a else pos 0) ≤ℤ cap
if-le true a cap h k = k
if-le false a cap h k = h

module _ (show : ℤ → String) where
  -- what a sequence of calls approves on a day without a human
  unfoldable pub spent_on : ℕ → List Request → PolicyVerifier → ℤ
  spent_on day [] v = pos 0
  spent_on day (r ∷ rs) v =
      let result = evaluate_proposal show r.now r.proposal r.state v in
      counted day r result.1 +ℤ spent_on day rs result.0

  abbrev carried : ℕ → PolicyVerifier → ℤ
  carried day v = if v.last_reset_day == day then v.daily_spent_stroops else pos 0

  record Effect (r : Request) (v v' : PolicyVerifier) (e : PolicyEvaluation) : Type 0 where
    rules : v'.rules ≡ v.rules
    day : v'.last_reset_day ≡ day_of r.now
    within : v'.daily_spent_stroops ≤ℤ v.rules.daily_spend_cap_stroops
    adds : (d : ℕ) → day_of r.now ≤ d → carried d v +ℤ counted d r e ≤ℤ carried d v'

  within_cap :
      (r : Request) (v : PolicyVerifier)
      → (let before = check_daily_reset r.now v in
          (evaluate_proposal show r.now r.proposal r.state v).1.approved ≡ true
          → before.daily_spent_stroops +ℤ r.proposal.amount_stroops
            ≤ℤ before.rules.daily_spend_cap_stroops)
  within_cap r v h =
      IsPermitted.cap ((evaluate_proposal-IsPermitted show r.now r.proposal r.state v).0.0 h)

  -- what `evaluateProposal` does to the verifier
  spends :
      (r : Request) (v : PolicyVerifier)
      → (let before = check_daily_reset r.now v in
          let result = evaluate_proposal show r.now r.proposal r.state v in
          result.0 ≡ (
            if result.1.approved && not result.1.requires_human_approval
            then record before {
              daily_spent_stroops = before.daily_spent_stroops +ℤ r.proposal.amount_stroops;
            }
            else before))
  unfolding evaluate_proposal
  spends r v = refl

  spent_after :
      (r : Request) (v : PolicyVerifier)
      → (let result = evaluate_proposal show r.now r.proposal r.state v in
          let before =
            if ltb v.last_reset_day (day_of r.now) then pos 0 else v.daily_spent_stroops in
          result.0.daily_spent_stroops ≡ (
            if result.1.approved && not result.1.requires_human_approval
            then before +ℤ r.proposal.amount_stroops
            else before))
  unfolding check_daily_reset
  spent_after r v = rw (spends r v) (ground arith)

  today :
      (r : Request) (v : PolicyVerifier)
      → v.last_reset_day ≤ day_of r.now
      → (evaluate_proposal show r.now r.proposal r.state v).0.last_reset_day ≡ day_of r.now
  unfolding check_daily_reset
  today r v reached = rw (spends r v) (ground arith)

  effect :
      (r : Request) (v : PolicyVerifier)
      → v.last_reset_day ≤ day_of r.now
      → pos 0 ≤ℤ v.rules.daily_spend_cap_stroops
      → v.daily_spent_stroops ≤ℤ v.rules.daily_spend_cap_stroops
      → (let result = evaluate_proposal show r.now r.proposal r.state v in
          Effect r v result.0 result.1)
  unfolding check_daily_reset
  effect r v reached positive within =
      let result = evaluate_proposal show r.now r.proposal r.state v in
      record {
        rules = rw (spends r v) (ground arith);
        day = today r v reached;
        within = rw (spends r v) (ground (arith, within_cap r v));
        adds = λ d h.
            rw (today r v reached, spent_after r v)
              (carried_adds v.last_reset_day (day_of r.now) d v.daily_spent_stroops
                r.proposal.amount_stroops
                (result.1.approved && not result.1.requires_human_approval) reached h);
      }

  -- Nothing counts for a day that is over.
  spent_on_late :
      (day reached : ℕ) (rs : List Request) (v : PolicyVerifier)
      → day < reached
      → InOrder reached rs
      → spent_on day rs v ≡ pos 0
  unfolding spent_on
  spent_on_late day reached [] v h order = refl
  spent_on_late day reached (r ∷ rs) v h order =
      let later =
        spent_on_late day (day_of r.now) rs (evaluate_proposal show r.now r.proposal r.state v).0
          (omega (arith, order.0)) order.1 in
      rw (later, counted_late day r _ (omega (arith, order.0))) (pos-+ℤ 0 0)

  carried-spent_on-le :
      (day : ℕ) (rs : List Request) (v : PolicyVerifier) (cap : ℤ)
      → InOrder v.last_reset_day rs
      → pos 0 ≤ℤ cap
      → v.rules.daily_spend_cap_stroops ≡ cap
      → v.daily_spent_stroops ≤ℤ cap
      → carried day v +ℤ spent_on day rs v ≤ℤ cap
  unfolding spent_on
  carried-spent_on-le day [] v cap order positive own within =
      add-zero-le (carried day v) cap
        (if-le (v.last_reset_day == day) v.daily_spent_stroops cap positive within)
  carried-spent_on-le day (r ∷ rs) v cap order positive own within =
      let v' = (evaluate_proposal show r.now r.proposal r.state v).0 in
      let e = (evaluate_proposal show r.now r.proposal r.state v).1 in
      let does = effect r v order.0 (rw own positive) (rw own within) in
      elim (Bool-cases (ltb day (day_of r.now))) [
        | inl late ↦
            let over = ltb→lt day (day_of r.now) late in
            rw
              (
                spent_on_late day (day_of r.now) rs v' over order.1,
                counted_late day r e over,
                pos-+ℤ 0 0,
              )
              (add-zero-le (carried day v) cap
                (if-le (v.last_reset_day == day) v.daily_spent_stroops cap positive within))
        | inr current ↦
            add-le-chain (carried day v) (counted day r e) (carried day v') (spent_on day rs v') cap
              (does.adds day (ground (arith, current)))
              (carried-spent_on-le day rs v' cap (rw does.day order.1) positive
                (ap (λ (x : PolicyRules). x.daily_spend_cap_stroops) does.rules ∙ own)
                (rw (← own) does.within))
      ]

  -- If evaluateProposal is called in the order of the clock, from a new verifier whose daily cap is not
  -- negative, then what it approves on any one day without asking for a human is at most the cap.
  pub spent_on-le :
      (start : ℕ) (rules : PolicyRules) (rs : List Request) (day : ℕ)
      → InOrder (day_of start) rs
      → pos 0 ≤ℤ rules.daily_spend_cap_stroops
      → spent_on day rs (new_policy_verifier start rules) ≤ℤ rules.daily_spend_cap_stroops
  unfolding new_policy_verifier
  spent_on-le start rules rs day order positive =
      let v = new_policy_verifier start rules in
      zero-add-le (day_of start == day) (spent_on day rs v) rules.daily_spend_cap_stroops
        (carried-spent_on-le day rs v rules.daily_spend_cap_stroops order positive refl positive)
