-- ===== src/Agents/Backrun/Profit.antt =====
-- agents/src/mev_backrun.ts: what an opportunity promises.
use hikari.Prelude.{◌≡◌, ◌≢◌, some, Option-cases, inl, inr, arith}
use hikari.Prelude.Int.{ℤ, pos, ◌+ℤ◌, ◌*ℤ◌, ◌≤ℤ◌, div_by, int_laws}
use hikari.Prelude.Number.{Number}
use hikari.Prelude.Except.{ok}
use hikari.Prelude.Text.{String}
use hikari.Agents.Backrun.{
  DexPriceFeed, BackrunOpportunity, Direction, choose_direction, trade_size, share_profit,
  scan_arbitrage,
}

module _ (n : Number) where
  open n use {Num, to_ℤ}

  trade_size_le :
      (phoenix soroswap : DexPriceFeed Num)
      → pos 1 ≤ℤ trade_size n phoenix soroswap
      → (trade_size n phoenix soroswap *ℤ pos 20 ≤ℤ phoenix.liquidity_depth_stroops)
        × (trade_size n phoenix soroswap *ℤ pos 20 ≤ℤ soroswap.liquidity_depth_stroops)
  unfolding trade_size div_by ◌*ℤ◌
  trade_size_le phoenix soroswap le = (ground arith, ground arith)

  share_adds_up :
      (id pair : String) (d : Direction Num) (size spread : ℤ)
      → (share_profit n id pair d size spread).vault_kickback_stroops
          +ℤ (share_profit n id pair d size spread).agent_fee_stroops
        ≡ (share_profit n id pair d size spread).estimated_gross_profit_stroops
  unfolding share_profit
  share_adds_up id pair d size spread = grind int_laws

  -- a direction buys and sells at different venues
  choose_direction-venues :
      (phoenix soroswap : DexPriceFeed Num) (d : Direction Num)
      → choose_direction n phoenix soroswap ≡ some d
      → d.buy_venue ≢ d.sell_venue
  unfolding choose_direction
  choose_direction-venues phoenix soroswap d chosen same = ground arith

  -- what an opportunity is made of
  scan_arbitrage-parts :
      (id : String) (phoenix soroswap : DexPriceFeed Num) (o : BackrunOpportunity Num)
      → scan_arbitrage n id phoenix soroswap ≡ ok (some o)
      → (d : Direction Num) × (spread : ℤ) × (choose_direction n phoenix soroswap ≡ some d)
        × (pos 1 ≤ℤ trade_size n phoenix soroswap)
        × (o ≡ share_profit n id phoenix.pair d (trade_size n phoenix soroswap) spread)
  unfolding scan_arbitrage
  scan_arbitrage-parts id phoenix soroswap o found =
      elim (Option-cases (choose_direction n phoenix soroswap)) [
        | inl missing ↦ absurd (ground arith)
        | inr (d, chosen) ↦ elim (Option-cases (to_ℤ d.spread_bps)) [
          | inl no_integer ↦ absurd (ground arith)
          | inr (spread, read) ↦ (d, spread, chosen, ground arith, ground arith)
        ]
      ]

  -- An opportunity that the scan finds trades at least one stroop and at most 5% of the depth of either pool; it
  -- buys and sells at different venues, and the vault's share and the agent's fee add up to the gross profit.
  pub scan_arbitrage-some :
      (id : String) (phoenix soroswap : DexPriceFeed Num) (o : BackrunOpportunity Num)
      → scan_arbitrage n id phoenix soroswap ≡ ok (some o)
      → (pos 1 ≤ℤ o.optimal_trade_size_stroops)
        × (o.optimal_trade_size_stroops *ℤ pos 20 ≤ℤ phoenix.liquidity_depth_stroops)
        × (o.optimal_trade_size_stroops *ℤ pos 20 ≤ℤ soroswap.liquidity_depth_stroops)
        × (o.buy_venue ≢ o.sell_venue)
        × (o.vault_kickback_stroops +ℤ o.agent_fee_stroops ≡ o.estimated_gross_profit_stroops)
  scan_arbitrage-some id phoenix soroswap o found =
      let (d, spread, chosen, positive, made) = scan_arbitrage-parts id phoenix soroswap o found in
      let (first, second) = trade_size_le phoenix soroswap positive in
      rw made (
        unfold share_profit in
        (
          positive,
          first,
          second,
          choose_direction-venues phoenix soroswap d chosen,
          share_adds_up id phoenix.pair d (trade_size n phoenix soroswap) spread,
        ))
