-- ===== src/Engine/Tests/Feeds.antt =====
-- engine/src: the points and the feed of rationales, tested.
use hikari.Prelude.{◌≡◌, refl, List, [], ◌∷◌, none, take, map, arith, ℕ}
use hikari.Prelude.Int.{ℤ, pos, ◌*ℤ◌, div_by, quot, ◌+ℤ◌}
use hikari.Prelude.Number.{fixed_point}
use hikari.Prelude.Dict.{lookup, insert}
use hikari.Prelude.Text.{String, utf16_length}
use hikari.Engine.Points.{
  TierId, balanced_hxlm, conservative_usdc, UserPointsProfile, LeaderboardRow, get_user_profile,
  get_leaderboard,
}
use hikari.Engine.Points.Profiles.{open_all, get_user_profile-open_all}
use hikari.Engine.Rationale.{harvest, DecisionRationale, emit_rationale, get_recent_rationales}
use hikari.Engine.Rationale.Recent.{stack, emit_all, get_recent_rationales-emit_all}

abbrev same_amount : ℤ → ℤ
same_amount x = x

abbrev keep_text : ℕ → String → String
keep_text k s = s

abbrev other_calls : List (String × ℤ × TierId)
other_calls = ("GB", pos 1000000, conservative_usdc) ∷ ("GA", pos 500000, balanced_hxlm) ∷ []

-- The multiplier is 1.5 · 1.2 · 1.25 = 2.25, and 100 dollars earn 2250 shards a day.
profile_rate :
    UserPointsProfile.base_rate_per_day
      (get_user_profile fixed_point same_amount same_amount "GA" (pos 1000000) balanced_hxlm []).1
    ≡ pos 22500000
unfolding get_user_profile lookup ◌*ℤ◌ div_by quot ◌+ℤ◌
profile_rate = refl

-- The one with the larger stake is first; the one without a stake is last.
leaderboard_order :
    map LeaderboardRow.address (
      get_leaderboard fixed_point keep_text keep_text (
        open_all fixed_point same_amount same_amount
          (("GC", pos 0, balanced_hxlm) ∷ other_calls)
          []))
    ≡ "GB" ∷ "GA" ∷ "GC" ∷ []
unfolding get_leaderboard open_all get_user_profile lookup insert ◌*ℤ◌ div_by quot ◌+ℤ◌ utf16_length
leaderboard_order = refl

-- A user looks at the page before the stake, and after it.
get_user_profile-open_all_example :
    get_user_profile fixed_point same_amount same_amount "GA" (pos 5000000) balanced_hxlm (
      open_all fixed_point same_amount same_amount other_calls
        (get_user_profile fixed_point same_amount same_amount "GA" (pos 0) balanced_hxlm []).0)
    ≡ (
      open_all fixed_point same_amount same_amount other_calls
          (get_user_profile fixed_point same_amount same_amount "GA" (pos 0) balanced_hxlm []).0,
      (get_user_profile fixed_point same_amount same_amount "GA" (pos 0) balanced_hxlm []).1,
    )
get_user_profile-open_all_example =
    get_user_profile-open_all fixed_point same_amount same_amount "GA" (pos 0) (pos 5000000)
      balanced_hxlm balanced_hxlm other_calls []

abbrev harvest_of : String → DecisionRationale ℕ
harvest_of id = record {
  cycle_id = id;
  timestamp = 0;
  proposer = "keeper";
  strategy_target = "Blend";
  proposed_action = harvest;
  amount_stroops = "100";
  metrics_observed = record {
    spread_bps = none;
    blend_apy_bps = none;
    phoenix_fee_apr_bps = none;
    portfolio_var_pct = none;
    current_reserve_pct = none;
  };
  mathematical_rationale = "spread";
  policy_confidence_score = 90;
}

abbrev three_emissions : List (DecisionRationale ℕ × ℕ)
three_emissions = (harvest_of "1", 10) ∷ (harvest_of "2", 20) ∷ (harvest_of "3", 30) ∷ []

latest_cycles :
    map DecisionRationale.cycle_id (get_recent_rationales 2 (emit_all three_emissions []))
    ≡ "3" ∷ "2" ∷ []
unfolding get_recent_rationales emit_all emit_rationale
latest_cycles = refl

get_recent_rationales-emit_all_example :
    get_recent_rationales 2 (emit_all three_emissions []) ≡ take 2 (stack three_emissions [])
get_recent_rationales-emit_all_example =
    get_recent_rationales-emit_all 2 three_emissions (omega arith)
