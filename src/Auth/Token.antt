-- ===== src/Auth/Token.antt =====
-- services/database/src/auth-service.ts: client fingerprints and signed session tokens.
use hikari.Prelude.{ℕ, ◌+◌, Option, none, some}
use hikari.Prelude.Text.{String, ◌⊕◌}
use hikari.Auth.Types.{Host, VerifyRequest, Draw}

abbrev pub challenge_ttl_ms : ℕ
challenge_ttl_ms = 300_000

abbrev pub session_ttl_ms : ℕ
session_ttl_ms = 86_400_000

abbrev pub or_default : String → Option String → String
or_default d none = d
or_default d (some v) = v

module _ (host : Host) where
  open host use {
    sha256, hmac_sha256, to_base64url, from_base64url, bytes_of_hex, bytes_of_base64, is_hex, trim,
    timing_safe_equal, iso, decimal, parse_int, from_public_key, key_verify,
  }

  unfoldable pub hash_fingerprint : Option String → Option String → String
  hash_fingerprint ip user_agent =
      sha256 (or_default "127.0.0.1" ip ⊕ ":" ⊕ or_default "unknown" user_agent)

  unfoldable pub session_payload : VerifyRequest → Draw → String
  session_payload req d =
      d.uuid
      ⊕ ":"
      ⊕ req.stellar_address
      ⊕ ":"
      ⊕ decimal (d.later + session_ttl_ms)
      ⊕ ":"
      ⊕ hash_fingerprint req.client_ip req.user_agent

  unfoldable pub sign_payload : String → String → String
  sign_payload secret payload = to_base64url payload ⊕ "." ⊕ hmac_sha256 secret payload
