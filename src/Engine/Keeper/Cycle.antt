-- ===== src/Engine/Keeper/Cycle.antt =====
-- engine/src/agents/keeper_bot.ts: what one cycle does to the policy verifier and to the audit log.
use hikari.Prelude.{
  ℕ, suc, ◌≡◌, refl, sym, ◌∙◌, inl, inr, Bool, true, false, ◌||◌, List, Option, none, some,
}
use hikari.Prelude.Int.{ℤ, ◌≤ℤ◌, ◌+ℤ◌}
use hikari.Prelude.Number.{Number}
use hikari.Prelude.Except.{Except, ok, Except-cases}
use hikari.Prelude.Text.{String}
use hikari.Engine.Types.{
  ActionProposal, ProtocolState, PolicyEvaluation, RiskMetrics, RiskEvaluationResult, KeeperConfig,
  KeeperCycleResult,
}
use hikari.Engine.Policy.{PolicyVerifier, check_daily_reset, evaluate_proposal}
use hikari.Engine.Policy.Rules.{IsPermitted, evaluate_proposal-IsPermitted}
use hikari.Engine.Audit.{AuditLogger, log_decision}
use hikari.Engine.Risk.{RiskEngine, evaluate_risk}
use hikari.Engine.Drift.{min_required_reserve, evaluate_rebalance}
use hikari.Engine.Keeper.{
  Host, KeeperBot, submit_if_any, rebalance, arbitrage, act_on_risk, run_keeper_cycle,
}
use hikari.Engine.Drift.Reserve.{evaluate_rebalance-reserve}

-- What is known of an executed rebalancing: the proposal, its evaluation, and what they leave behind.
pub record Executed {N : Type 0} (host : Host) (now : ℕ) (state : ProtocolState)
    (config : KeeperConfig N) (verifier : PolicyVerifier) (before after : AuditLogger)
    (p : ActionProposal) (e : PolicyEvaluation) : Type 0 where
  pub approved : e.approved ≡ true
  pub permitted :
      (let v = check_daily_reset now verifier in IsPermitted v.rules v.daily_spent_stroops p state)
  pub reserve : p.amount_stroops +ℤ min_required_reserve config state ≤ℤ state.idle_assets_stroops
  pub logged : after ≡ (log_decision host.hash host.stringify now p e before).0

module _ {N : Type 0} (host : Host) (now : ℕ) (state : ProtocolState) where
  submit_if_any-Executed :
      (o : Option ActionProposal) (bot : KeeperBot N)
      → (let done = submit_if_any host now state o bot in
          done.rebalanced ≡ true
          → (p : ActionProposal) × (e : PolicyEvaluation) × (o ≡ some p)
            × (done.proposal ≡ some p)
            × (done.evaluation ≡ some e)
            × (e.approved ≡ true)
            × (let v = check_daily_reset now bot.policy_verifier in
                IsPermitted v.rules v.daily_spent_stroops p state)
            × (done.bot.audit_logger
                ≡ (log_decision host.hash host.stringify now p e bot.audit_logger).0))
  unfolding submit_if_any
  submit_if_any-Executed none bot h = cc
  submit_if_any-Executed (some p) bot h =
      let e = (evaluate_proposal host.show now p state bot.policy_verifier).1 in
      (
        p,
        e,
        refl,
        refl,
        refl,
        h,
        (evaluate_proposal-IsPermitted host.show now p state bot.policy_verifier).0.0 h,
        rw h refl,
      )

  submit_if_any-kept :
      (o : Option ActionProposal) (bot : KeeperBot N)
      → (let done = submit_if_any host now state o bot in
          done.rebalanced ≡ false → done.bot.audit_logger ≡ bot.audit_logger)
  unfolding submit_if_any
  submit_if_any-kept none bot h = refl
  submit_if_any-kept (some p) bot h = rw h refl

module _ (n : Number) (abs : Number.Num n → Number.Num n) (host : Host) where
  open n use {Num}

  module _ (now : ℕ) (state : ProtocolState) (venue_prices : List (String × Num)) (apr : ℤ)
      (risk : RiskEvaluationResult) (bot : KeeperBot Num) where
    halted :
        (bunker : Bool)
        → bunker ≡ true
        → (let cycle = act_on_risk n abs host now state venue_prices apr risk bunker bot in
            (r : KeeperCycleResult Num) × (cycle.1 ≡ ok r)
            × (cycle.0 ≡ bot)
            × (r.bunker_active ≡ true)
            × (r.rebalanced ≡ false)
            × (r.rebalance_proposal ≡ none)
            × (r.arbitrage_executed ≡ false)
            × (r.arbitrage_opportunity ≡ none))
    unfolding act_on_risk
    halted true h = (_, refl, refl, refl, refl, refl, refl, refl)
    halted false h = cc

    -- what a cycle submits
    submitted :
        (rebalance host now state false bot).rebalanced ≡ true
        → (p : ActionProposal) × (e : PolicyEvaluation) × ((evaluate_rebalance host.show now
              bot.config state bot.cycle_count).1.proposal
            ≡ some p)
          × ((rebalance host now state false bot).proposal ≡ some p)
          × ((rebalance host now state false bot).evaluation ≡ some e)
          × (e.approved ≡ true)
          × (let v = check_daily_reset now bot.policy_verifier in
              IsPermitted v.rules v.daily_spent_stroops p state)
          × ((rebalance host now state false bot).bot.audit_logger
              ≡ (log_decision host.hash host.stringify now p e bot.audit_logger).0)
    unfolding rebalance
    submitted = submit_if_any-Executed host now state _ _

    result_of :
        (bunker : Bool) (r : KeeperCycleResult Num)
        → (act_on_risk n abs host now state venue_prices apr risk bunker bot).1 ≡ ok r
        → (let done = rebalance host now state bunker bot in
            (r.rebalanced ≡ done.rebalanced)
            × (r.rebalance_proposal ≡ done.proposal)
            × (r.evaluation ≡ done.evaluation)
            × (r.bunker_active ≡ bunker))
    unfolding act_on_risk
    result_of bunker r h =
        elim (Except-cases (arbitrage n abs host bunker bot.config venue_prices)) [
          | inl (found, e) ↦ let done = rw (e) at h in (cc, cc, cc, cc)
          | inr (message, e) ↦ let failed = rw (e) at h in cc
        ]

    rebalanced-Executed :
        (bunker : Bool) (r : KeeperCycleResult Num)
        → (act_on_risk n abs host now state venue_prices apr risk bunker bot).1 ≡ ok r
        → r.rebalanced ≡ true
        → (let cycle = act_on_risk n abs host now state venue_prices apr risk bunker bot in
            (p : ActionProposal) × (e : PolicyEvaluation) × (r.rebalance_proposal ≡ some p)
            × (r.evaluation ≡ some e)
            × (r.bunker_active ≡ false)
            × Executed host now state bot.config bot.policy_verifier bot.audit_logger
                cycle.0.audit_logger p e)
    rebalanced-Executed true r h done = let facts = result_of true r h in unfold rebalance in cc
    rebalanced-Executed false r h done =
        let (a, b, c, d) = result_of false r h in
        let (p, e, made, own, evaluated, approved, permitted, logged) = submitted (sym a ∙ done) in
        (
          p,
          e,
          b ∙ own,
          c ∙ evaluated,
          d,
          record {
            approved = approved;
            permitted = permitted;
            reserve =
                (evaluate_rebalance-reserve host.show now bot.config state bot.cycle_count p
                  made).1;
            logged = unfold act_on_risk in logged;
          },
        )

  module _ (now : ℕ) (state : ProtocolState) (metrics : RiskMetrics)
      (venue_prices : List (String × Num)) (apr : ℤ) (bot : KeeperBot Num) where
    abbrev pub cycle : KeeperBot Num × Except (KeeperCycleResult Num)
    cycle = run_keeper_cycle n abs host now state metrics venue_prices apr bot

    abbrev pub risk_step : RiskEngine × RiskEvaluationResult
    risk_step = evaluate_risk host.percent host.show state metrics bot.risk_engine

    -- In bunker mode or under a gate seal a cycle gives a result that proposes and executes nothing, and changes no
    -- more of the keeper than the cycle count and the risk engine's peak: the policy verifier and the audit log
    -- stay as they were.
    pub run_keeper_cycle-bunker :
        (risk_step.1.triggers_bunker_mode || risk_step.1.triggers_gate_seal) ≡ true
        → (r : KeeperCycleResult Num) × (cycle.1 ≡ ok r)
          × (cycle.0 ≡ record bot { cycle_count = suc bot.cycle_count; risk_engine = risk_step.0 })
          × (r.bunker_active ≡ true)
          × (r.rebalanced ≡ false)
          × (r.rebalance_proposal ≡ none)
          × (r.arbitrage_executed ≡ false)
          × (r.arbitrage_opportunity ≡ none)
    unfolding run_keeper_cycle
    run_keeper_cycle-bunker h = halted now state venue_prices apr risk_step.1 _ _ h

    -- When a cycle rebalances, the keeper is not in bunker mode, its proposal is one that the policy permits with
    -- what the day has left and that leaves the keeper's reserve, and the log holds it with its evaluation as the
    -- one new entry.
    pub run_keeper_cycle-Executed :
        (r : KeeperCycleResult Num)
        → cycle.1 ≡ ok r
        → r.rebalanced ≡ true
        → (p : ActionProposal) × (e : PolicyEvaluation) × (r.rebalance_proposal ≡ some p)
          × (r.evaluation ≡ some e)
          × (r.bunker_active ≡ false)
          × Executed host now state bot.config bot.policy_verifier bot.audit_logger
              cycle.0.audit_logger p e
    unfolding run_keeper_cycle
    run_keeper_cycle-Executed r h done =
        rebalanced-Executed now state venue_prices apr risk_step.1 _ _ r h done
