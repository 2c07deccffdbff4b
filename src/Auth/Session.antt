-- ===== src/Auth/Session.antt =====
-- services/database/src/auth-service.ts: `validateSession` and `revokeSession`.
use hikari.Prelude.{
  List, ℕ, Bool, true, false, not, ◌||◌, [], ◌∷◌, Option, none, some, get_elem?, ltb, if◌then◌else◌,
}
use hikari.Prelude.Text.{String, ◌==◌, is_empty, includes, split}
use hikari.Prelude.Dict.{lookup, erase}
use hikari.Auth.Types.{Host, AuthSession, session_revoked, text, Service, Draw, Validation}
use hikari.Auth.Log.{log_security_event}
use hikari.Auth.Token.{or_default, hash_fingerprint}

module _ (host : Host) where
  open host use {
    sha256, hmac_sha256, to_base64url, from_base64url, bytes_of_hex, bytes_of_base64, is_hex, trim,
    timing_safe_equal, iso, decimal, parse_int, from_public_key, key_verify,
  }

  abbrev pub invalid : String → Validation
  invalid message = record { valid = false; stellar_address = none; error = some message }

  -- `Date.now() > expiresAt`, where a missing or malformed expiry is NaN
  abbrev pub is_past : ℕ → Option ℕ → Bool
  is_past now none = false
  is_past now (some t) = ltb t now

  abbrev pub parse_expiry : Option String → Option ℕ
  parse_expiry none = none
  parse_expiry (some t) = parse_int t

  -- The fingerprint test: an address that is absent or empty is not tested.
  unfoldable pub same_client : AuthSession → Option String → Option String → Bool
  same_client session none user_agent = true
  same_client session (some ip) user_agent =
      is_empty ip || session.ip_hash == hash_fingerprint host (some ip) user_agent

  -- `validateSession` once the signature of the token is known to be right.
  unfoldable pub check_session :
      Service → String → String → Option String → Option String → ℕ → Service × Validation
  check_session s token payload client_ip user_agent now =
      let fields = split b':' payload in
      if is_past now (parse_expiry (get_elem? fields 2))
      then (
        record s { active_sessions = erase token s.active_sessions },
        invalid "Session token has expired.",
      )
      else elim (lookup token s.active_sessions) [
        | none ↦ (s, invalid "Session has been revoked or terminated.")
        | some session ↦ (
          s,
          if same_client session client_ip user_agent
              then record { valid = true; stellar_address = get_elem? fields 1; error = none }
              else invalid "Session fingerprint mismatch. Possible session hijacking detected.",
        )
      ]

  -- the two parts of a token: the payload, decoded, and the bytes of its signature
  abbrev pub token_payload : String → String
  token_payload token = from_base64url (or_default "" (get_elem? (split b'.' token) 0))

  abbrev pub token_signature : String → List ℕ
  token_signature token = bytes_of_hex (or_default "" (get_elem? (split b'.' token) 1))

  -- The result is `none` where `timingSafeEqual` raises.
  unfoldable pub validate_session :
      Service → String → Option String → Option String → ℕ → Service × Option Validation
  validate_session s token client_ip user_agent now =
      let payload = token_payload token in
      let provided = token_signature token in
      let expected = bytes_of_hex (hmac_sha256 s.jwt_secret payload) in
      if is_empty token || not (includes b'.' token)
      then (s, some (invalid "Malformed session token."))
      else elim (timing_safe_equal provided expected) [
        | none ↦ (s, none)
        | some false ↦ (s, some (invalid "Invalid session token signature."))
        | some true ↦
            let (s', v) = check_session s token payload client_ip user_agent now in (s', some v)
      ]

unfoldable pub revoke_session : Service → String → Draw → Service × Bool
revoke_session s token d = elim (lookup token s.active_sessions) [
  | none ↦ (s, false)
  | some session ↦ (
    (let logged = log_security_event s (record {
      id = d.event_id;
      stellar_address = session.stellar_address;
      event_type = session_revoked;
      risk_score = 10;
      details = ("sessionId", text session.session_id) ∷ [];
      timestamp = d.timestamp;
    }) in
        record logged { active_sessions = erase token s.active_sessions }),
    true,
  )
]
