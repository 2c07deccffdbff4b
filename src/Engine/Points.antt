-- ===== src/Engine/Points.antt =====
-- engine/src/points_engine.ts: the shards that a stake earns, the profiles and the leaderboard. Amounts are those
-- of the parameter `n`; `two_decimals` stands for `Number(x.toFixed(2))`, `round` for `Math.round`, and `first`
-- and `last` for `slice` with the number of characters to keep.
pub mod Profiles
use hikari.Prelude.{
  ℕ, zero, suc, ◌+◌, Bool, true, false, ◌==◌, List, [], ◌∷◌, length, Option, none, some,
  if◌then◌else◌, ltb,
}
use hikari.Prelude.Int.{pos}
use hikari.Prelude.Number.{Number}
use hikari.Prelude.Dict.{Dict, insert, lookup}
use hikari.Prelude.Text.{String, ◌⊕◌, utf16_length}

pub data TierId : Type 0 where
  conservative_usdc balanced_hxlm dynamic_alpha_hxlm : TierId

pub record UserStakingPosition (N : Type 0) : Type 0 where
  pub user_address : String
  pub tier_id : TierId
  pub staked_amount_usd : N
  pub duration_days : N
  pub is_lp_on_dex : Bool
  pub is_blend_collateral : Bool
  pub referred_by : Option String

pub record UserPointsProfile (N : Type 0) : Type 0 where
  pub user_address : String
  pub total_shards : N
  pub base_rate_per_day : N
  pub active_multiplier : N
  pub rank : ℕ
  pub tier : String
  pub badges : List String

pub record LeaderboardRow (N : Type 0) : Type 0 where
  pub rank : ℕ
  pub address : String
  pub shards : N
  pub tier : String

module _ (n : Number) (two_decimals round : Number.Num n → Number.Num n) where
  open n use {Num, of_ℤ, add, mul, div, lt, le}

  abbrev hundredths : ℕ → Num
  hundredths k = div (of_ℤ (pos k)) (of_ℤ (pos 100))

  abbrev pub tier_multiplier : TierId → Num
  tier_multiplier conservative_usdc = hundredths 100
  tier_multiplier balanced_hxlm = hundredths 150
  tier_multiplier dynamic_alpha_hxlm = hundredths 250

  abbrev pub duration_boost : Num → Num
  duration_boost days =
      if le (of_ℤ (pos 180)) days
      then hundredths 200
      else if le (of_ℤ (pos 90)) days
      then hundredths 150
      else if le (of_ℤ (pos 30)) days
      then hundredths 120
      else hundredths 100

  abbrev pub ecosystem_boost : Bool → Bool → Num
  ecosystem_boost lp collateral =
      let after_lp = if lp then add (hundredths 100) (hundredths 25) else hundredths 100 in
      if collateral then add after_lp (hundredths 25) else after_lp

  -- the daily shards and the multiplier
  unfoldable pub calculate_daily_shards : UserStakingPosition Num → Num × Num
  calculate_daily_shards p =
      let boosted = mul (tier_multiplier p.tier_id) (duration_boost p.duration_days) in
      let multiplier =
        two_decimals (mul boosted (ecosystem_boost p.is_lp_on_dex p.is_blend_collateral)) in
      (round (mul (mul p.staked_amount_usd (of_ℤ (pos 10))) multiplier), multiplier)

  abbrev empty_profile : String → UserPointsProfile Num
  empty_profile address = record {
    user_address = address;
    total_shards = of_ℤ (pos 0);
    base_rate_per_day = of_ℤ (pos 0);
    active_multiplier = hundredths 100;
    rank = 0;
    tier = "Standard Staker";
    badges = [];
  }

  -- the profile that a first call makes of a map with so many users
  unfoldable pub make_profile : String → Num → TierId → ℕ → UserPointsProfile Num
  unfolding calculate_daily_shards
  make_profile address staked tier_id size =
      let (daily, multiplier) = calculate_daily_shards record {
        user_address = address;
        tier_id = tier_id;
        staked_amount_usd = staked;
        duration_days = of_ℤ (pos 45);
        is_lp_on_dex = false;
        is_blend_collateral = true;
        referred_by = none;
      } in
      if le staked (of_ℤ (pos 0)) then empty_profile address else record {
        user_address = address;
        total_shards = mul daily (of_ℤ (pos 30));
        base_rate_per_day = daily;
        active_multiplier = multiplier;
        rank = size + 1;
        tier = "Luminescent Guardian";
        badges = "Early Testnet Pioneer" ∷ "Blend Integrator" ∷ "Passkey Signer" ∷ [];
      }

  unfoldable pub get_user_profile :
      String
      → Num
      → TierId
      → Dict (UserPointsProfile Num)
      → Dict (UserPointsProfile Num) × UserPointsProfile Num
  unfolding make_profile
  get_user_profile address staked tier_id users =
      let made = make_profile address staked tier_id (length users) in
      elim (lookup address users) [ none ↦ (insert address made users, made) | some p ↦ (users, p) ]

module _ (n : Number) (first last : ℕ → String → String) where
  open n use {Num, lt}

  -- The sort by falling shards, which keeps the order of equals.
  abbrev place_user :
      UserPointsProfile Num → List (UserPointsProfile Num) → List (UserPointsProfile Num)
  place_user u [] = u ∷ []
  place_user u (x ∷ xs) =
      let later = place_user u xs in
      if lt x.total_shards u.total_shards then u ∷ x ∷ xs else x ∷ later

  abbrev sort_by_shards :
      List (UserPointsProfile Num) → Dict (UserPointsProfile Num) → List (UserPointsProfile Num)
  sort_by_shards sorted [] = sorted
  sort_by_shards sorted ((address, u) ∷ rest) = sort_by_shards (place_user u sorted) rest

  -- the rows of the first so many users, from this index on
  abbrev number_rows : ℕ → ℕ → List (UserPointsProfile Num) → List (LeaderboardRow Num)
  number_rows zero index users = []
  number_rows (suc left) index [] = []
  number_rows (suc left) index (u ∷ rest) =
      let address = u.user_address in
      record {
        rank = index + 1;
        address =
            if ltb 12 (utf16_length address)
            then first 7 address ⊕ "..." ⊕ last 4 address
            else address;
        shards = u.total_shards;
        tier = u.tier;
      }
      ∷ number_rows left (index + 1) rest

  unfoldable pub get_leaderboard : Dict (UserPointsProfile Num) → List (LeaderboardRow Num)
  get_leaderboard users = number_rows 10 0 (sort_by_shards [] users)
