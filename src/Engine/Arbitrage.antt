-- ===== src/Engine/Arbitrage.antt =====
-- engine/src/agents/keeper_bot.ts: `scanMevOpportunities`. Prices and spreads are numbers of the parameter `n`.
use hikari.Prelude.{◌*◌, ◌&&◌, List, [], ◌∷◌, Option, none, some, if◌then◌else◌}
use hikari.Prelude.Int.{ℤ, pos, ◌*ℤ◌, div_by}
use hikari.Prelude.Number.{Number}
use hikari.Prelude.Except.{Except, ok, or_throw, ◌>>=◌}
use hikari.Prelude.Text.{String, ◌⊕◌}
use hikari.Engine.Types.{ArbitrageOpportunity, KeeperConfig}

-- The best spread so far, and the venues to buy and to sell at.
pub record Spread (N : Type 0) : Type 0 where
  pub best_bps : N
  pub buy_venue : String
  pub sell_venue : String

module _ (n : Number) (abs : Number.Num n → Number.Num n) where
  open n use {Num, of_ℤ, to_ℤ, sub, mul, div, floor, lt, le, min}

  unfoldable pub compare_venues : String × Num → String × Num → Spread Num → Spread Num
  compare_venues (venue1, p1) (venue2, p2) s =
      let spread = floor (mul (div (abs (sub p1 p2)) (min p1 p2)) (of_ℤ (pos 10000))) in
      if lt s.best_bps spread
      then record {
        best_bps = spread;
        buy_venue = if lt p1 p2 then venue1 else venue2;
        sell_venue = if lt p1 p2 then venue2 else venue1;
      }
      else s

  -- the inner loop, over the venues after this one
  unfoldable pub compare_with_later : String × Num → List (String × Num) → Spread Num → Spread Num
  unfolding compare_venues
  compare_with_later v [] s = s
  compare_with_later v (w ∷ later) s = compare_with_later v later (compare_venues v w s)

  unfoldable pub best_spread : List (String × Num) → Spread Num → Spread Num
  unfolding compare_with_later
  best_spread [] s = s
  best_spread (v ∷ later) s = best_spread later (compare_with_later v later s)

  abbrev pub trade_volume_stroops : ℤ
  trade_volume_stroops = pos (50_000 * 10_000_000)

  -- The scan of a spread found: `BigInt` raises a RangeError for a number that is no integer.
  unfoldable pub opportunity_of : Num → Spread Num → Except (Option (ArbitrageOpportunity Num))
  opportunity_of min_spread_bps s =
      let net = sub s.best_bps (of_ℤ (pos 30)) in
      if le min_spread_bps s.best_bps && lt (of_ℤ (pos 0)) net
      then (or_throw (to_ℤ net) "RangeError" >>= λ net_bps. ok (
          some (record {
            venue_a = s.buy_venue;
            venue_b = s.sell_venue;
            spread_bps = s.best_bps;
            expected_profit_stroops = div_by (trade_volume_stroops *ℤ net_bps) 10000;
            execution_route =
                "SDEX -> " ⊕ s.buy_venue ⊕ " -> " ⊕ s.sell_venue ⊕ " -> Vault Reserve";
          })))
      else ok none

  unfoldable pub scan_mev_opportunities :
      KeeperConfig Num → List (String × Num) → Except (Option (ArbitrageOpportunity Num))
  unfolding best_spread opportunity_of
  scan_mev_opportunities config [] = ok none
  scan_mev_opportunities config (v ∷ []) = ok none
  scan_mev_opportunities config (v ∷ w ∷ venues) = opportunity_of config.mev_min_spread_bps (
      best_spread (v ∷ w ∷ venues)
        (record { best_bps = of_ℤ (pos 0); buy_venue = ""; sell_venue = "" }))
