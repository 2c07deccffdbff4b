-- ===== src/Auth/Verify.antt =====
-- services/database/src/auth-service.ts: `verifySignature`.
use hikari.Prelude.{
  ℕ, ◌+◌, Bool, true, false, not, ◌||◌, [], ◌∷◌, none, some, length, ltb, ◌==◌ as nat_eq,
  if◌then◌else◌,
}
use hikari.Prelude.Text.{String, ◌==◌, is_empty}
use hikari.Prelude.Dict.{lookup, has, insert, erase, add_key}
use hikari.Auth.Types.{
  Host, AuthChallenge, VerifyRequest, AuthSession, EventType, auth_success, auth_failed,
  replay_attack_blocked, session_expired, Detail, text, number, Service, Draw, Verification,
}
use hikari.Auth.Log.{log_security_event}
use hikari.Auth.Token.{session_ttl_ms, hash_fingerprint, session_payload, sign_payload}

module _ (host : Host) where
  open host use {
    sha256, hmac_sha256, to_base64url, from_base64url, bytes_of_hex, bytes_of_base64, is_hex, trim,
    timing_safe_equal, iso, decimal, parse_int, from_public_key, key_verify,
  }

  -- `verifyEd25519Signature`; whatever the SDK raises is caught, and is false.
  unfoldable pub verify_ed25519_signature : String → String → String → Bool
  verify_ed25519_signature message signature address =
      let bytes = if is_hex signature then bytes_of_hex signature else bytes_of_base64 signature in
      if is_empty signature || trim signature == "" then false else elim (from_public_key address) [
        | none ↦ false
        | some key ↦
            if nat_eq (length bytes) 64
            then elim (key_verify key message bytes) [ none ↦ false | some b ↦ b ]
            else false
      ]

  -- An early return of `verifySignature`: the log entry, and the message.
  abbrev pub refuse :
      Service
      → VerifyRequest
      → Draw
      → EventType
      → ℕ
      → String × Detail
      → String
      → Service × Verification
  refuse s req d event_type risk detail message = (
    log_security_event s (record {
      id = d.event_id;
      stellar_address = req.stellar_address;
      event_type = event_type;
      risk_score = risk;
      details = detail ∷ [];
      timestamp = d.timestamp;
    }),
    record { success = false; session = none; error = some message },
  )

  abbrev pub forget_challenge : String → Service → Service
  forget_challenge id s = record s { active_challenges = erase id s.active_challenges }

  unfoldable pub new_session : String → VerifyRequest → Draw → AuthSession
  unfolding session_payload
  new_session secret req d = record {
    session_id = d.uuid;
    stellar_address = req.stellar_address;
    session_token = sign_payload host secret (session_payload host req d);
    expires_at = d.later + session_ttl_ms;
    ip_hash = hash_fingerprint host req.client_ip req.user_agent;
    created_at = d.later;
  }

  -- The end of `verifySignature`: the nonce is spent, the challenge dropped, the session stored.
  unfoldable pub open_session : Service → VerifyRequest → Draw → String → Service × Verification
  open_session s req d nonce =
      let session = new_session s.jwt_secret req d in
      (
        log_security_event
            (record s {
              consumed_nonces = add_key nonce s.consumed_nonces;
              active_challenges = erase req.challenge_id s.active_challenges;
              active_sessions = insert session.session_token session s.active_sessions;
            })
            (record {
              id = d.event_id;
              stellar_address = req.stellar_address;
              event_type = auth_success;
              risk_score = 0;
              details =
                  ("sessionId", text d.uuid)
                  ∷ ("expiresAt", number (d.later + session_ttl_ms))
                  ∷ [];
              timestamp = d.timestamp;
            }),
        record { success = true; session = some session; error = none },
      )

  -- `verifySignature` from the point where the challenge is found.
  unfoldable pub check_challenge :
      Service → VerifyRequest → Draw → AuthChallenge → Service × Verification
  check_challenge s req d challenge =
      if ltb challenge.expires_at d.now
      then refuse (forget_challenge req.challenge_id s) req d session_expired 30
          ("challengeId", text req.challenge_id) "Authentication challenge has expired."
      else if not (challenge.stellar_address == req.stellar_address)
      then refuse s req d auth_failed 90
          ("reason", text "Address mismatch between challenge and verification")
          "Public address does not match the active challenge."
      else if has challenge.nonce s.consumed_nonces
      then refuse (forget_challenge req.challenge_id s) req d replay_attack_blocked 99
          ("nonce", text challenge.nonce) "Replay attack detected: Nonce has already been consumed."
      else if not (verify_ed25519_signature challenge.message req.signature req.stellar_address)
      then refuse s req d auth_failed 85
          ("reason", text "Ed25519 cryptographic signature verification failed")
          "Invalid cryptographic signature for the given Stellar public key."
      else open_session s req d challenge.nonce

  unfoldable pub verify_signature : Service → VerifyRequest → Draw → Service × Verification
  verify_signature s req d = elim (lookup req.challenge_id s.active_challenges) [
    | none ↦
        refuse s req d auth_failed 65 ("reason", text "Challenge ID not found or expired")
          "Challenge expired or invalid. Please request a new authentication challenge."
    | some challenge ↦ check_challenge s req d challenge
  ]
