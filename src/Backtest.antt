-- ===== src/Backtest.antt =====
-- scripts/run_backtest.js: the five regimes of a year. Assets and prices are numbers of the parameter `n`;
-- `round` stands for `Math.round` and `four_decimals` for `Number(x.toFixed(4))`.
mod Tests
use hikari.Prelude.{ℕ, zero, suc, ◌+◌, ◌*◌, List, [], ◌∷◌, ◌++◌, if◌then◌else◌}
use hikari.Prelude.Int.{pos}
use hikari.Prelude.Number.{Number}
use hikari.Prelude.Text.{String}

pub record RegimeResult (N : Type 0) : Type 0 where
  pub regime : String
  pub days : ℕ
  pub end_tvl : N
  pub end_nav : N
  pub status : String

-- The variables of `runBacktest`.
pub record Portfolio (N : Type 0) : Type 0 where
  pub tvl : N
  pub nav : N
  pub hwm_nav : N
  pub total_fees : N
  pub total_mev_streamed : ℕ
  pub gate_seal_triggers : ℕ
  pub bunker_mode_days : ℕ
  pub results_by_regime : List (RegimeResult N)

module _ (n : Number) (round : Number.Num n → Number.Num n)
    (four_decimals : Number.Num n → Number.Num n) where
  open n use {Num, of_ℤ, add, sub, mul, div, lt}

  abbrev int : ℕ → Num
  int k = of_ℤ (pos k)

  -- the yield of a day, from one of a year in thousandths
  abbrev daily : ℕ → Num
  daily apy = div (div (int apy) (int 1000)) (int 365)

  unfoldable pub initial_portfolio : Portfolio Num
  initial_portfolio = record {
    tvl = int 500_000;
    nav = int 1;
    hwm_nav = int 1;
    total_fees = int 0;
    total_mev_streamed = 0;
    gate_seal_triggers = 0;
    bunker_mode_days = 0;
    results_by_regime = [];
  }

  -- `nav *= 1 + apy` and the growth of the assets
  unfoldable pub grow_day : Num → Portfolio Num → Portfolio Num
  grow_day apy p = record p {
    nav = mul p.nav (add (int 1) apy);
    tvl = round (mul p.tvl (add (int 1) apy));
  }

  unfoldable pub stream_mev : ℕ → Portfolio Num → Portfolio Num
  stream_mev mev p = record p {
    tvl = add p.tvl (int mev);
    total_mev_streamed = p.total_mev_streamed + mev;
  }

  -- the performance fee on what is above the high-water mark
  unfoldable pub take_fee : Portfolio Num → Portfolio Num
  take_fee p =
      if lt p.hwm_nav p.nav
      then record p {
        total_fees =
            add p.total_fees (mul (mul (sub p.nav p.hwm_nav) p.tvl) (div (int 1) (int 10)));
        hwm_nav = p.nav;
      }
      else p

  -- a day of the regimes 1, 2 and 5
  unfoldable pub earning_day : ℕ → ℕ → Portfolio Num → Portfolio Num
  unfolding grow_day stream_mev take_fee
  earning_day apy mev p = take_fee (stream_mev mev (grow_day (daily apy) p))

  unfoldable pub for_days : ℕ → (Portfolio Num → Portfolio Num) → Portfolio Num → Portfolio Num
  for_days zero day p = p
  for_days (suc k) day p = for_days k day (day p)

  unfoldable pub push_result : String → ℕ → String → Portfolio Num → Portfolio Num
  push_result regime days status p = record p {
    results_by_regime =
        p.results_by_regime
        ++ record {
          regime = regime;
          days = days;
          end_tvl = p.tvl;
          end_nav = four_decimals p.nav;
          status = status;
        }
          ∷ [];
  }

  -- Regime 3: the shock
  unfoldable pub shock : Portfolio Num → Portfolio Num
  shock p = record p {
    gate_seal_triggers = p.gate_seal_triggers + 1;
    nav = mul p.nav (div (int 835) (int 1000));
    bunker_mode_days = p.bunker_mode_days + 40;
    tvl = round (mul p.tvl (div (int 835) (int 1000)));
  }

  unfoldable pub run_backtest : Portfolio Num
  unfolding initial_portfolio earning_day for_days push_result shock grow_day
  run_backtest =
      let bull =
        push_result "Bull Expansion" 90 "NOMINAL"
          (for_days 90 (earning_day 85 45) initial_portfolio) in
      let sideways =
        push_result "Sideways Range" 90 "NOMINAL" (for_days 90 (earning_day 65 30) bull) in
      let crash = push_result "Black-Swan Shock" 40 "BUNKER_SEALED" (shock sideways) in
      let defensive =
        push_result "Oracle Latency & Defensive" 50 "FALLBACK_DEFENSIVE"
          (for_days 50 (grow_day (daily 48)) crash) in
      push_result "Recovery & HWM Breakout" 95 "NOMINAL"
        (for_days 95 (earning_day 115 65) defensive)
