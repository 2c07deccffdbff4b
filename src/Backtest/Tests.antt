-- ===== src/Backtest/Tests.antt =====
-- scripts/run_backtest.js: the counters at the end of the year, on four decimals.
use hikari.Prelude.{◌≡◌, refl}
use hikari.Prelude.Int.{ℤ, ◌+ℤ◌, ◌*ℤ◌, div_by, quot}
use hikari.Prelude.Number.{fixed_point}
use hikari.Backtest.{run_backtest}

abbrev keep : ℤ → ℤ
keep x = x

streamed : (run_backtest fixed_point keep keep).total_mev_streamed ≡ 12_925
unfolding run_backtest ◌+ℤ◌ ◌*ℤ◌ div_by quot
streamed = refl

bunker_days : (run_backtest fixed_point keep keep).bunker_mode_days ≡ 40
unfolding run_backtest ◌+ℤ◌ ◌*ℤ◌ div_by quot
bunker_days = refl
