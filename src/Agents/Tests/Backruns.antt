-- ===== src/Agents/Tests/Backruns.antt =====
-- agents/src/mev_backrun.ts: two pools, 80 basis points apart.
use hikari.Prelude.{◌≡◌, ◌≢◌, refl, some}
use hikari.Prelude.Int.{ℤ, pos, ◌≤ℤ◌, ◌+ℤ◌, ◌-ℤ◌, ◌*ℤ◌, div_by, quot}
use hikari.Prelude.Number.{fixed_point}
use hikari.Prelude.Except.{ok}
use hikari.Agents.Backrun.{
  Venue, phoenix_clamm, soroswap_amm, DexPriceFeed, BackrunOpportunity, scan_arbitrage,
}
use hikari.Agents.Backrun.Profit.{scan_arbitrage-some}

abbrev feed : Venue → ℤ → ℤ → ℤ → DexPriceFeed ℤ
feed venue bid ask depth = record {
  venue = venue;
  pair = "XLM/USDC";
  bid_price = bid;
  ask_price = ask;
  liquidity_depth_stroops = depth;
  timestamp = 0;
}

abbrev opportunity : BackrunOpportunity ℤ
opportunity = record {
  id = "mev_1";
  pair = "XLM/USDC";
  buy_venue = phoenix_clamm;
  sell_venue = soroswap_amm;
  buy_price = pos 1250;
  sell_price = pos 1260;
  spread_bps = pos 800000;
  optimal_trade_size_stroops = pos 5000;
  estimated_gross_profit_stroops = pos 40;
  vault_kickback_stroops = pos 32;
  agent_fee_stroops = pos 8;
}

opportunity_found :
    scan_arbitrage fixed_point "mev_1"
      (feed phoenix_clamm (pos 1245) (pos 1250) (pos 100000))
      (feed soroswap_amm (pos 1260) (pos 1265) (pos 200000))
    ≡ ok (some opportunity)
unfolding scan_arbitrage ◌-ℤ◌ ◌*ℤ◌ div_by quot
opportunity_found = refl

scan_arbitrage-some_example :
    (pos 1 ≤ℤ pos 5000)
    × (pos 5000 *ℤ pos 20 ≤ℤ pos 100000)
    × (pos 5000 *ℤ pos 20 ≤ℤ pos 200000)
    × (phoenix_clamm ≢ soroswap_amm)
    × (pos 32 +ℤ pos 8 ≡ pos 40)
scan_arbitrage-some_example =
    scan_arbitrage-some fixed_point "mev_1" (feed phoenix_clamm (pos 1245) (pos 1250) (pos 100000))
      (feed soroswap_amm (pos 1260) (pos 1265) (pos 200000)) opportunity opportunity_found
