-- ===== src/Agents/Tests.antt =====
-- agents/src: two strategies and a vault with a fifth of its assets idle.
mod Backruns
use hikari.Prelude.{ℕ, ◌≡◌, refl, [], ◌∷◌, some, map}
use hikari.Prelude.Int.{ℤ, pos, ◌≤ℤ◌, ◌+ℤ◌, ◌-ℤ◌, ◌*ℤ◌, div_by}
use hikari.Prelude.Text.{String}
use hikari.Engine.Types.{ActionProposal, allocate}
use hikari.Engine.Policy.Rules.{KeepsReserve}
use hikari.Engine.Tests.{show, keeper_rules, vault_state}
use hikari.Agents.{
  MarketData, RankedStrategy, maintain, lending_emissions, evaluate_exposure, build_proposal,
  rank_strategies,
}
use hikari.Agents.Reserve.{build_proposal-KeepsReserve}

abbrev strategy : String → RankedStrategy
strategy id = record {
  strategy_id = id;
  name = id;
  category = lending_emissions;
  venue = "Blend";
  base_apy_bps = pos 680;
  emission_boost_apy_bps = pos 0;
  mev_alpha_boost_bps = pos 0;
  nominal_apy_bps = pos 680;
  risk_penalty_bps = pos 40;
  risk_adjusted_apy_bps = pos 640;
  target_weight_pct = pos 15;
  recommended_action = maintain;
}

-- 2000 stroops, 1000 of them idle: a quarter of the 700 above the reserve.
abbrev proposal : ActionProposal
proposal = record {
  id = "hikari_prop_n";
  timestamp = 60;
  proposer_agent = "agent_execution_01";
  action_type = allocate;
  target_strategy = "a";
  amount_stroops = pos 175;
  expected_yield_bps = pos 680;
  max_slippage_bps = pos 30;
  rationale = "Automated rebalance: Deploying capital to a (n% APY).";
}

proposal_made :
    build_proposal show show 60
      (evaluate_exposure show show vault_state (strategy "a" ∷ strategy "b" ∷ []))
      (strategy "a" ∷ strategy "b" ∷ [])
    ≡ some proposal
unfolding build_proposal evaluate_exposure ◌-ℤ◌ ◌*ℤ◌ div_by
proposal_made = refl

build_proposal-KeepsReserve_example :
    (pos 1 ≤ℤ pos 175)
    × (allocate ≡ allocate)
    × (◌≡◌ {A = String} "a" "a")
    × (pos 680 ≡ pos 680)
    × KeepsReserve keeper_rules proposal vault_state
build_proposal-KeepsReserve_example =
    build_proposal-KeepsReserve show show show 60 vault_state (strategy "a") (strategy "b" ∷ [])
      2000 keeper_rules proposal proposal_made refl refl

abbrev market : MarketData
market = record {
  blend_supply_apy_bps = pos 680;
  blend_emission_apy_bps = pos 740;
  blend_backstop_apy_bps = pos 2150;
  phoenix_fee_apy_bps = pos 1860;
  soroswap_fee_apy_bps = pos 1040;
  soroswap_farm_apy_bps = pos 480;
  aqua_sdex_apy_bps = pos 1380;
  mev_stream_apy_bps = pos 320;
  volatility_index = pos 25;
}

abbrev penalty_25 : ℕ → ℤ → ℤ
penalty_25 k v = pos k

ranked_ids :
    map RankedStrategy.strategy_id (rank_strategies penalty_25 market)
    ≡ "strat_blend_backstop_01" ∷ "strat_phoenix_xlm_usdc_01" ∷ "strat_soroswap_xlm_usdc_01"
      ∷ "strat_aqua_sdex_01" ∷ "strat_blend_xlm_lending_01" ∷ []
unfolding rank_strategies ◌+ℤ◌ ◌-ℤ◌
ranked_ids = refl
