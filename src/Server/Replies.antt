-- ===== src/Server/Replies.antt =====
-- frontend/server.js: the state of the server, and the values that its answers carry.
use hikari.Prelude.{ℕ, Bool, true, false, [], ◌∷◌, map, Option, none, some}
use hikari.Prelude.Int.{pos}
use hikari.Prelude.Text.{String}
use hikari.Prelude.Number.{Number}
use hikari.Prelude.Except.{Except, ok, thrown}
use hikari.Prelude.Json.{Json, undefined, null, bool, num, str, obj, object}
use hikari.Auth.Types.{
  AuthChallenge, AuthSession, SecurityEvent, EventType, Detail, text, number, challenge_issued,
  auth_success, auth_failed, replay_attack_blocked, session_revoked, session_expired, Service,
  Verification,
}
use hikari.Database.Types.{UserProfile, Database}
use hikari.Server.Http.{Response, FileState, respond}

-- What the server keeps from one request to the next.
pub record State (N : Type 0) : Type 0 where
  pub auth : Option Service
  pub database : Option (Database N)
  -- telemetry_data.json
  pub telemetry_file : FileState N

-- `v` of a call that may throw, or what its error leads to
abbrev pub handle {ℓ κ} : {A : Type ℓ} {B : Type κ} → Except A → (String → B) → (A → B) → B
handle (ok a) failed done = done a
handle (thrown e) failed done = failed e

abbrev pub event_name : EventType → String
event_name challenge_issued = "CHALLENGE_ISSUED"
event_name auth_success = "AUTH_SUCCESS"
event_name auth_failed = "AUTH_FAILED"
event_name replay_attack_blocked = "REPLAY_ATTACK_BLOCKED"
event_name session_revoked = "SESSION_REVOKED"
event_name session_expired = "SESSION_EXPIRED"

abbrev pub opt_text : {N : Type 0} → Option String → Json N
opt_text none = undefined
opt_text (some s) = str s

-- A field that is no text is passed on as the empty text, which like it fits no challenge.
abbrev pub as_text : {N : Type 0} → Json N → String
as_text (str s) = s
as_text v = ""

abbrev pub is_text : {N : Type 0} → Json N → Bool
is_text (str s) = true
is_text v = false

abbrev pub refused_json : {N : Type 0} → ℕ → String → Response N
refused_json code message =
    respond code (object (("success", bool false) ∷ ("error", str message) ∷ []))

module _ (n : Number) where
  open n use {Num, of_ℤ}

  abbrev pub int_json : ℕ → Json Num
  int_json k = num (of_ℤ (pos k))

  abbrev pub challenge_json : AuthChallenge → Json Num
  challenge_json c = object (
      ("challengeId", str c.challenge_id)
      ∷ ("stellarAddress", str c.stellar_address)
      ∷ ("nonce", str c.nonce)
      ∷ ("message", str c.message)
      ∷ ("issuedAt", int_json c.issued_at)
      ∷ ("expiresAt", int_json c.expires_at)
      ∷ [])

  abbrev pub session_json : Option AuthSession → Json Num
  session_json none = undefined
  session_json (some s) = object (
      ("sessionId", str s.session_id)
      ∷ ("stellarAddress", str s.stellar_address)
      ∷ ("sessionToken", str s.session_token)
      ∷ ("expiresAt", int_json s.expires_at)
      ∷ ("ipHash", str s.ip_hash)
      ∷ ("createdAt", int_json s.created_at)
      ∷ [])

  abbrev pub verification_json : Verification → Json Num
  verification_json v = object (
      ("success", bool v.success)
      ∷ ("session", session_json v.session)
      ∷ ("error", opt_text v.error)
      ∷ [])

  abbrev pub profile_json : Option (UserProfile Num) → Json Num
  profile_json none = null
  profile_json (some u) = object (
      ("id", str u.id)
      ∷ ("stellarAddress", str u.stellar_address)
      ∷ ("createdAt", str u.created_at)
      ∷ ("lastActiveAt", str u.last_active_at)
      ∷ ("riskProfile", str u.risk_profile)
      ∷ ("preferences", obj u.preferences)
      ∷ ("referredBy", opt_text u.referred_by)
      ∷ ("kycTier", str u.kyc_tier)
      ∷ [])

  abbrev pub detail_json : Detail → Json Num
  detail_json (text s) = str s
  detail_json (number k) = int_json k

  abbrev pub event_json : SecurityEvent → Json Num
  event_json e = object (
      ("id", str e.id)
      ∷ ("stellarAddress", str e.stellar_address)
      ∷ ("eventType", str (event_name e.event_type))
      ∷ ("riskScore", int_json e.risk_score)
      ∷ ("details", object (map (λ (k, v). (k, detail_json v)) e.details))
      ∷ ("timestamp", str e.timestamp)
      ∷ [])
