-- ===== src/Agents.antt =====
-- agents/src: the agents that rank the strategies, size an allocation, propose it and pay for data. Yields are
-- whole basis points. `penalty k v` stands for `Math.round(k * (v / 25))` of the volatility index v,
-- `round_ratio a b` for `Math.round(a / b)`, `show` and `percent` for a number, and one over 100, in a template.
pub mod Reserve
pub mod Payment
pub mod Backrun
mod Tests
use hikari.Prelude.{
  ℕ, Bool, true, false, ◌&&◌, ◌||◌, List, [], ◌∷◌, ◌++◌, Option, none, some, if◌then◌else◌,
}
use hikari.Prelude.Int.{ℤ, pos, ltb_ℤ, leb_ℤ, ◌+ℤ◌, ◌-ℤ◌, ◌*ℤ◌, div_by}
use hikari.Prelude.Text.{String, ◌⊕◌, ◌==◌, starts_with}
use hikari.Engine.Types.{ActionProposal, ProtocolState, allocate}

-- The yields of the market that the ranking reads.
pub record MarketData : Type 0 where
  pub blend_supply_apy_bps : ℤ
  pub blend_emission_apy_bps : ℤ
  pub blend_backstop_apy_bps : ℤ
  pub phoenix_fee_apy_bps : ℤ
  pub soroswap_fee_apy_bps : ℤ
  pub soroswap_farm_apy_bps : ℤ
  pub aqua_sdex_apy_bps : ℤ
  pub mev_stream_apy_bps : ℤ
  pub volatility_index : ℤ

pub data StrategyCategory : Type 0 where
  lending_emissions backstop_staking concentrated_amm : StrategyCategory
  constant_product_farm sdex_incentives : StrategyCategory

pub data Recommendation : Type 0 where
  allocate_more maintain deallocate_some : Recommendation

-- The score is the risk-adjusted yield in percent.
pub record RankedStrategy : Type 0 where
  pub strategy_id : String
  pub name : String
  pub category : StrategyCategory
  pub venue : String
  pub base_apy_bps : ℤ
  pub emission_boost_apy_bps : ℤ
  pub mev_alpha_boost_bps : ℤ
  pub nominal_apy_bps : ℤ
  pub risk_penalty_bps : ℤ
  pub risk_adjusted_apy_bps : ℤ
  pub target_weight_pct : ℤ
  pub recommended_action : Recommendation

-- `candidateVenues.map(…)`, for one venue
unfoldable pub assess :
    String → String → StrategyCategory → String → ℤ → ℤ → ℤ → ℤ → ℤ → RankedStrategy
assess strategy_id name category venue base emission mev risk_penalty weight =
    let nominal = base +ℤ emission +ℤ mev in
    let reduced = nominal -ℤ risk_penalty in
    let adjusted = if ltb_ℤ (pos 0) reduced then reduced else pos 0 in
    record {
      strategy_id = strategy_id;
      name = name;
      category = category;
      venue = venue;
      base_apy_bps = base;
      emission_boost_apy_bps = emission;
      mev_alpha_boost_bps = mev;
      nominal_apy_bps = nominal;
      risk_penalty_bps = risk_penalty;
      risk_adjusted_apy_bps = adjusted;
      target_weight_pct = weight;
      recommended_action = if ltb_ℤ (pos 1000) adjusted then allocate_more else maintain;
    }

-- The sort by falling score, which keeps the order of equals: a strategy goes before the first with a lower one.
unfoldable pub place : RankedStrategy → List RankedStrategy → List RankedStrategy
place s [] = s ∷ []
place s (x ∷ xs) =
    let later = place s xs in
    if ltb_ℤ x.risk_adjusted_apy_bps s.risk_adjusted_apy_bps then s ∷ x ∷ xs else x ∷ later

unfoldable pub sort_by_score : List RankedStrategy → List RankedStrategy → List RankedStrategy
unfolding place
sort_by_score sorted [] = sorted
sort_by_score sorted (s ∷ rest) = sort_by_score (place s sorted) rest

unfoldable pub rank_strategies : (ℕ → ℤ → ℤ) → MarketData → List RankedStrategy
unfolding assess sort_by_score
rank_strategies penalty m =
    let mev = m.mev_stream_apy_bps in
    sort_by_score [] (
      assess "strat_blend_backstop_01" "Blend Protocol Backstop Module (bBLND-XLM)" backstop_staking
        "Blend Protocol 27" (pos 850) (m.blend_backstop_apy_bps -ℤ pos 850) mev (pos 160) (pos 35)
      ∷ assess "strat_phoenix_xlm_usdc_01" "Phoenix XLM-USDC Concentrated Liquidity (CLAMM ±2%)"
          concentrated_amm "Phoenix CLAMM" m.phoenix_fee_apy_bps (pos 0) mev
          (penalty 180 m.volatility_index) (pos 30)
      ∷ assess "strat_soroswap_xlm_usdc_01" "Soroswap XLM-USDC Dynamic AMM Pool & Farm"
          constant_product_farm "Soroswap" m.soroswap_fee_apy_bps m.soroswap_farm_apy_bps mev
          (penalty 140 m.volatility_index) (pos 20)
      ∷ assess "strat_blend_xlm_lending_01" "Blend Protocol XLM Supply + BLND Mining Emissions"
          lending_emissions "Blend Protocol 27" m.blend_supply_apy_bps m.blend_emission_apy_bps
          (pos 0) (pos 40) (pos 15)
      ∷ assess "strat_aqua_sdex_01" "Aqua Liquidity Bribes & SDEX Automated Market Making"
          sdex_incentives "Stellar SDEX" (pos 920) (pos 460) mev (pos 110) (pos 0)
      ∷ [])

-- `ranked[0]`
abbrev pub top_of : List RankedStrategy → Option RankedStrategy
top_of [] = none
top_of (s ∷ rest) = some s

unfoldable pub get_best_yield_strategy : (ℕ → ℤ → ℤ) → MarketData → Option RankedStrategy
unfolding rank_strategies
get_best_yield_strategy penalty m = top_of (rank_strategies penalty m)

-- the two sums of `calculateBlendedPortfolioApyBps`
unfoldable pub weigh : ℤ → ℤ → List RankedStrategy → ℤ × ℤ
weigh total weighted [] = (total, weighted)
weigh total weighted (s ∷ rest) =
    let counts = ltb_ℤ (pos 0) s.target_weight_pct in
    weigh (if counts then total +ℤ s.target_weight_pct else total)
      (if counts then weighted +ℤ s.nominal_apy_bps *ℤ s.target_weight_pct else weighted) rest

unfoldable pub calculate_blended_portfolio_apy_bps : (ℤ → ℤ → ℤ) → List RankedStrategy → ℤ
unfolding weigh
calculate_blended_portfolio_apy_bps round_ratio strategies =
    let (total, weighted) = weigh (pos 0) (pos 0) strategies in
    if ltb_ℤ (pos 0) total then round_ratio weighted total else pos 0

pub record RiskAssessment : Type 0 where
  pub safe_to_rebalance : Bool
  pub max_recommended_allocation_stroops : ℤ
  pub target_strategy_id : String
  pub reasons : List String

module _ (show : ℤ → String) (percent : ℤ → String) where
  unfoldable pub evaluate_exposure : ProtocolState → List RankedStrategy → RiskAssessment
  evaluate_exposure state [] = record {
    safe_to_rebalance = false;
    max_recommended_allocation_stroops = pos 0;
    target_strategy_id = "";
    reasons = "No candidate strategies found" ∷ [];
  }
  evaluate_exposure state (top ∷ rest) =
      let min_reserve = div_by (state.total_assets_stroops *ℤ pos 15) 100 in
      let deployable = state.idle_assets_stroops -ℤ min_reserve in
      let allocation = div_by (deployable *ℤ pos 25) 100 in
      if leb_ℤ state.idle_assets_stroops min_reserve
      then record {
        safe_to_rebalance = false;
        max_recommended_allocation_stroops = pos 0;
        target_strategy_id = top.strategy_id;
        reasons =
            ("Idle vault assets ("
              ⊕ show state.idle_assets_stroops
              ⊕ ") are at or below target 15% liquidity reserve ("
              ⊕ show min_reserve
              ⊕ ")")
            ∷ [];
      }
      else record {
        safe_to_rebalance = true;
        max_recommended_allocation_stroops = allocation;
        target_strategy_id = top.strategy_id;
        reasons =
            ("Top strategy: "
              ⊕ top.name
              ⊕ " (Risk-adjusted APY: "
              ⊕ percent top.risk_adjusted_apy_bps
              ⊕ "%)")
            ∷ ("Deployable surplus: "
                ⊕ show deployable
                ⊕ " stroops. Sized allocation: "
                ⊕ show allocation
                ⊕ " stroops.")
            ∷ [];
      }

-- `rankedStrategies.find(…)`
unfoldable pub find_strategy : String → List RankedStrategy → Option RankedStrategy
find_strategy strategy_id [] = none
find_strategy strategy_id (s ∷ rest) =
    let later = find_strategy strategy_id rest in
    if s.strategy_id == strategy_id then some s else later

-- `percent2` stands for `(bps / 100).toFixed(2)`.
unfoldable pub build_proposal :
    (ℤ → String) → (ℤ → String) → ℕ → RiskAssessment → List RankedStrategy → Option ActionProposal
unfolding find_strategy
build_proposal show percent2 now risk ranked =
    if (if risk.safe_to_rebalance then false else true)
      || leb_ℤ risk.max_recommended_allocation_stroops (pos 0)
    then none
    else elim (find_strategy risk.target_strategy_id ranked) [
      | none ↦ none
      | some target ↦ some (record {
        id = "hikari_prop_" ⊕ show (pos now);
        timestamp = now;
        proposer_agent = "agent_execution_01";
        action_type = allocate;
        target_strategy = target.strategy_id;
        amount_stroops = risk.max_recommended_allocation_stroops;
        expected_yield_bps = target.nominal_apy_bps;
        max_slippage_bps = pos 30;
        rationale =
            "Automated rebalance: Deploying capital to "
            ⊕ target.name
            ⊕ " ("
            ⊕ percent2 target.nominal_apy_bps
            ⊕ "% APY).";
      })
    ]
