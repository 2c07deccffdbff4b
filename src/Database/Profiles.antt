-- ===== src/Database/Profiles.antt =====
-- services/database/src/db-client.ts: profiles, loyalty and the ledger's sequence. An error that the code
-- throws is `thrown`, with the state that it leaves.
use hikari.Prelude.{Bool, true, false, not, ◌||◌, [], ◌∷◌, Option, none, some, if◌then◌else◌}
use hikari.Prelude.Int.{pos}
use hikari.Prelude.Text.{String, starts_with, is_empty}
use hikari.Prelude.Dict.{insert, lookup}
use hikari.Prelude.Number.{Number}
use hikari.Prelude.Except.{Except, ok, thrown}
use hikari.Prelude.Json.{Json, obj, bool, str, Fields, end, field, fields, put_field, is_nonzero}
use hikari.Database.Types.{Host, UserProfile, UserLoyalty, Database, Draw, ClientDefaults}
use hikari.Database.Storage.{persist_state}

-- `given || other` and `given ?? other`
abbrev or_text : Option String → String → String
or_text none other = other
or_text (some s) other = if is_empty s then other else s

abbrev or_bool : Option Bool → Bool → Bool
or_bool none other = other
or_bool (some b) other = b

abbrev pub no_defaults : ClientDefaults
no_defaults = record {
  risk_profile = none;
  theme = none;
  currency = none;
  notifications_enabled = none;
  telegram_alerts = none;
  discord_alerts = none;
  referred_by = none;
}

unfoldable pub new_profile : {N : Type 0} → String → ClientDefaults → Draw → UserProfile N
new_profile address c d = record {
  id = d.uuid;
  stellar_address = address;
  created_at = d.now;
  last_active_at = d.later;
  risk_profile = or_text c.risk_profile "BALANCED";
  preferences = fields (
      ("theme", str (or_text c.theme "dark"))
      ∷ ("currency", str (or_text c.currency "XLM"))
      ∷ ("notificationsEnabled", bool (or_bool c.notifications_enabled true))
      ∷ ("telegramAlerts", bool (or_bool c.telegram_alerts false))
      ∷ ("discordAlerts", bool (or_bool c.discord_alerts false))
      ∷ []);
  referred_by = c.referred_by;
  kyc_tier = "COMMUNITY_VERIFIED";
}

-- the guard of `getOrCreateUserProfile`
unfoldable pub is_account : String → Bool
is_account address = not (is_empty address || not (starts_with address "G"))

-- `{...old, ...updates}`
unfoldable pub merge_fields : {N : Type 0} → Fields N → Fields N → Fields N
merge_fields old end = old
merge_fields old (field k v rest) = merge_fields (put_field k v old) rest

abbrev pub spread : {N : Type 0} → Host N → Json N → Fields N
spread h (obj fs) = fs
spread h v = h.spread_other v

module _ {N : Type 0} where
  -- the profile of an address that is valid, as it was or new
  unfoldable pub touch_profile : String → ClientDefaults → Draw → Database N → UserProfile N
  unfolding new_profile
  touch_profile address c d db = elim (lookup address db.users_table) [
    | none ↦ new_profile address c d
    | some existing ↦ record existing { last_active_at = d.now }
  ]

  -- An existing profile is changed in place; its key is the address asked for.
  unfoldable pub get_or_create_user_profile :
      Database N → String → ClientDefaults → Draw → Database N × Except (UserProfile N)
  unfolding touch_profile is_account
  get_or_create_user_profile db address c d =
      let u = touch_profile address c d db in
      if is_account address
      then (persist_state d (record db { users_table = insert address u db.users_table }), ok u)
      else (db, thrown "Invalid Stellar public key format")

  unfoldable pub update_user_preferences :
      Host N → Database N → String → Json N → Draw → Database N × Except (UserProfile N)
  update_user_preferences h db address updates d =
      let (db', result) = get_or_create_user_profile db address no_defaults d in
      elim result [
        | thrown e ↦ (db', thrown e)
        | ok user ↦
            let user' : UserProfile N = record user {
              preferences = merge_fields user.preferences (spread h updates);
              last_active_at = d.later;
            } in
            (
              persist_state d (record db' { users_table = insert address user' db'.users_table }),
              ok user',
            )
      ]

module _ (n : Number) where
  open n use {Num, of_ℤ, div}

  -- `fetchCurrentLedger`, from `_embedded?.records[0].sequence` of Horizon's answer: `none` where the
  -- request fails or the answer has no such record.
  unfoldable pub fetch_current_ledger : Database Num → Option Num → Database Num × Num
  fetch_current_ledger db none = (db, db.last_known_ledger)
  fetch_current_ledger db (some sequence) =
      if is_nonzero n sequence
      then (record db { last_known_ledger = sequence }, sequence)
      else (db, db.last_known_ledger)

  unfoldable pub default_loyalty : String → UserLoyalty Num
  default_loyalty address = record {
    user_address = address;
    total_shards = of_ℤ (pos 12500);
    rank = of_ℤ (pos 58);
    tier = "Luminescent Guardian";
    multiplier = div (of_ℤ (pos 225)) (of_ℤ (pos 100));
    badges =
        "Early Testnet Pioneer (Simulated)" ∷ "Zero-Knowledge Solvency Verified (Simulated)" ∷ [];
  }

  unfoldable pub get_user_loyalty : Database Num → String → Draw → Database Num × UserLoyalty Num
  unfolding default_loyalty
  get_user_loyalty db address d = elim (lookup address db.loyalty_table) [
    | some l ↦ (db, l)
    | none ↦
        let l = default_loyalty address in
        (persist_state d (record db { loyalty_table = insert address l db.loyalty_table }), l)
  ]
