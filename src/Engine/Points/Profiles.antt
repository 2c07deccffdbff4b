-- ===== src/Engine/Points/Profiles.antt =====
-- engine/src/points_engine.ts: what `getUserProfile` answers over time.
use hikari.Prelude.{◌≡◌, inl, inr, List, [], ◌∷◌, some, Option-cases, refl, arith, length}
use hikari.Prelude.Number.{Number}
use hikari.Prelude.Dict.{Dict, lookup, lookup-insert}
use hikari.Prelude.Text.{String, eq_iff}
use hikari.Engine.Points.{TierId, UserPointsProfile, get_user_profile, make_profile}

module _ (n : Number) (two_decimals round : Number.Num n → Number.Num n) where
  open n use {Num}

  -- calls of `getUserProfile`, one after another
  unfoldable pub open_all :
      List (String × Num × TierId) → Dict (UserPointsProfile Num) → Dict (UserPointsProfile Num)
  open_all [] users = users
  open_all ((address, staked, tier_id) ∷ rest) users =
      open_all rest (get_user_profile n two_decimals round address staked tier_id users).0

  lookup-get_user_profile :
      (address : String) (staked : Num) (tier_id : TierId) (users : Dict (UserPointsProfile Num))
      → lookup address (get_user_profile n two_decimals round address staked tier_id users).0
        ≡ some (get_user_profile n two_decimals round address staked tier_id users).1
  unfolding get_user_profile lookup
  lookup-get_user_profile address staked tier_id users =
      let made = make_profile n two_decimals round address staked tier_id (length users) in
      elim (Option-cases (lookup address users)) [
        | inl missing ↦
            rw (missing, get_user_profile)
              (ground (arith, lookup-insert address address made users, eq_iff address address))
        | inr (p, found) ↦ rw (found, get_user_profile) found
      ]

  get_user_profile-keeps :
      (address other : String) (staked : Num) (tier_id : TierId)
      (users : Dict (UserPointsProfile Num)) (p : UserPointsProfile Num)
      → lookup other users ≡ some p
      → lookup other (get_user_profile n two_decimals round address staked tier_id users).0 ≡ some p
  unfolding get_user_profile lookup
  get_user_profile-keeps address other staked tier_id users p known =
      let made = make_profile n two_decimals round address staked tier_id (length users) in
      elim (Option-cases (lookup address users)) [
        | inl missing ↦
            rw (missing, get_user_profile)
              (ground (arith, lookup-insert address other made users, eq_iff address other))
        | inr (q, found) ↦ rw (found, get_user_profile) known
      ]

  open_all-keeps :
      (calls : List (String × Num × TierId)) (other : String) (users : Dict (UserPointsProfile Num))
      (p : UserPointsProfile Num)
      → lookup other users ≡ some p
      → lookup other (open_all calls users) ≡ some p
  unfolding open_all
  open_all-keeps [] other users p known = known
  open_all-keeps ((address, staked, tier_id) ∷ rest) other users p known =
      open_all-keeps rest other _ p
        (get_user_profile-keeps address other staked tier_id users p known)

  -- Whatever is asked for in between, and whatever stake and tier are passed later, `getUserProfile` answers an address
  -- with the profile of the first call, and with that changes no profile.
  pub get_user_profile-open_all :
      (address : String) (staked later_staked : Num) (tier_id later_tier : TierId)
      (calls : List (String × Num × TierId)) (users : Dict (UserPointsProfile Num))
      → get_user_profile n two_decimals round address later_staked later_tier
          (open_all calls (get_user_profile n two_decimals round address staked tier_id users).0)
        ≡ (
          open_all calls (get_user_profile n two_decimals round address staked tier_id users).0,
          (get_user_profile n two_decimals round address staked tier_id users).1,
        )
  unfolding get_user_profile open_all
  get_user_profile-open_all address staked later_staked tier_id later_tier calls users =
      let kept =
        open_all-keeps calls address _ _ (lookup-get_user_profile address staked tier_id users) in
      rw (kept, get_user_profile) refl
