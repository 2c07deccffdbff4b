-- ===== src/Agents/Backrun.antt =====
-- agents/src/mev_backrun.ts: the scan for a trade between the two exchanges. Prices are numbers of the parameter `n`;
-- `id` is the text drawn for the opportunity. A spread that is no integer is a thrown RangeError.
pub mod Profit
use hikari.Prelude.{ℕ, Bool, true, false, ◌&&◌, Option, none, some, if◌then◌else◌}
use hikari.Prelude.Int.{ℤ, pos, ltb_ℤ, leb_ℤ, ◌-ℤ◌, ◌*ℤ◌, div_by}
use hikari.Prelude.Number.{Number}
use hikari.Prelude.Except.{Except, ok, or_throw, ◌>>=◌}
use hikari.Prelude.Text.{String}

pub data Venue : Type 0 where
  phoenix_clamm soroswap_amm : Venue

pub record DexPriceFeed (N : Type 0) : Type 0 where
  pub venue : Venue
  pub pair : String
  pub bid_price : N
  pub ask_price : N
  pub liquidity_depth_stroops : ℤ
  pub timestamp : ℕ

pub record BackrunOpportunity (N : Type 0) : Type 0 where
  pub id : String
  pub pair : String
  pub buy_venue : Venue
  pub sell_venue : Venue
  pub buy_price : N
  pub sell_price : N
  pub spread_bps : N
  pub optimal_trade_size_stroops : ℤ
  pub estimated_gross_profit_stroops : ℤ
  pub vault_kickback_stroops : ℤ
  pub agent_fee_stroops : ℤ

-- where to buy and where to sell, at which prices, with the spread rounded down
pub record Direction (N : Type 0) : Type 0 where
  pub buy_venue : Venue
  pub sell_venue : Venue
  pub buy_price : N
  pub sell_price : N
  pub spread_bps : N

module _ (n : Number) where
  open n use {Num, of_ℤ, to_ℤ, sub, mul, div, floor, le}

  -- the spread of buying from one feed and selling to the other
  abbrev pub spread_between : DexPriceFeed Num → DexPriceFeed Num → Num
  spread_between buy sell =
      mul (div (sub sell.bid_price buy.ask_price) buy.ask_price) (of_ℤ (pos 10000))

  unfoldable pub choose_direction : DexPriceFeed Num → DexPriceFeed Num → Option (Direction Num)
  choose_direction phoenix soroswap =
      let to_soro = spread_between phoenix soroswap in
      let to_phoenix = spread_between soroswap phoenix in
      if le to_phoenix to_soro && le (of_ℤ (pos 35)) to_soro
      then some (record {
        buy_venue = phoenix_clamm;
        sell_venue = soroswap_amm;
        buy_price = phoenix.ask_price;
        sell_price = soroswap.bid_price;
        spread_bps = floor to_soro;
      })
      else if le (of_ℤ (pos 35)) to_phoenix
      then some (record {
        buy_venue = soroswap_amm;
        sell_venue = phoenix_clamm;
        buy_price = soroswap.ask_price;
        sell_price = phoenix.bid_price;
        spread_bps = floor to_phoenix;
      })
      else none

  -- 5% of the lesser depth
  unfoldable pub trade_size : DexPriceFeed Num → DexPriceFeed Num → ℤ
  trade_size phoenix soroswap =
      div_by
        ((if ltb_ℤ phoenix.liquidity_depth_stroops soroswap.liquidity_depth_stroops
            then phoenix.liquidity_depth_stroops
            else soroswap.liquidity_depth_stroops)
          *ℤ pos 5)
        100

  -- the opportunity, from the size and the spread as an integer
  unfoldable pub share_profit : String → String → Direction Num → ℤ → ℤ → BackrunOpportunity Num
  share_profit id pair d size spread =
      let gross = div_by (size *ℤ spread) 10000 in
      let kickback = div_by (gross *ℤ pos 8000) 10000 in
      record {
        id = id;
        pair = pair;
        buy_venue = d.buy_venue;
        sell_venue = d.sell_venue;
        buy_price = d.buy_price;
        sell_price = d.sell_price;
        spread_bps = d.spread_bps;
        optimal_trade_size_stroops = size;
        estimated_gross_profit_stroops = gross;
        vault_kickback_stroops = kickback;
        agent_fee_stroops = gross -ℤ kickback;
      }

  unfoldable pub scan_arbitrage :
      String → DexPriceFeed Num → DexPriceFeed Num → Except (Option (BackrunOpportunity Num))
  unfolding choose_direction trade_size share_profit
  scan_arbitrage id phoenix soroswap =
      let size = trade_size phoenix soroswap in
      elim (choose_direction phoenix soroswap) [
        | none ↦ ok none
        | some d ↦
            if leb_ℤ size (pos 0)
            then ok none
            else or_throw (to_ℤ d.spread_bps) "RangeError" >>= λ spread.
                ok (some (share_profit id phoenix.pair d size spread))
      ]
