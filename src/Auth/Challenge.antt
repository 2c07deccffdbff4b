-- ===== src/Auth/Challenge.antt =====
-- services/database/src/auth-service.ts: `generateChallenge`.
use hikari.Prelude.{
  ℕ, ◌+◌, Bool, not, ◌||◌, [], ◌∷◌, Option, none, some, ◌==◌ as nat_eq, if◌then◌else◌,
}
use hikari.Prelude.Text.{String, ◌⊕◌, starts_with, utf16_length, is_empty, take_chars}
use hikari.Prelude.Dict.{insert}
use hikari.Auth.Types.{
  Host, ChallengeRequest, AuthChallenge, challenge_issued, text, number, Service, Draw,
}
use hikari.Auth.Log.{log_security_event}
use hikari.Auth.Token.{challenge_ttl_ms}

module _ (host : Host) where
  open host use {
    sha256, hmac_sha256, to_base64url, from_base64url, bytes_of_hex, bytes_of_base64, is_hex, trim,
    timing_safe_equal, iso, decimal, parse_int, from_public_key, key_verify,
  }

  unfoldable pub challenge_message : String → String → ℕ → ℕ → String
  challenge_message address nonce now expires_at =
      "============================================================\n"
      ⊕ "             HIKARI PROTOCOL WALLET AUTHENTICATION          \n"
      ⊕ "============================================================\n"
      ⊕ "Address: "
      ⊕ address
      ⊕ "\nNonce: "
      ⊕ nonce
      ⊕ "\nDomain: hikari.stellar.org\nIssued At: "
      ⊕ iso now
      ⊕ "\nExpires At: "
      ⊕ iso expires_at
      ⊕ "\n------------------------------------------------------------\n"
      ⊕ "Sign this message to prove custody of your Stellar account.\n"
      ⊕ "This request does not trigger any blockchain transaction or fee.\n"
      ⊕ "============================================================"

  -- the guard of `generateChallenge`
  unfoldable pub is_public_address : String → Bool
  is_public_address address =
      not (
        is_empty address || not (starts_with address "G") || not (nat_eq (utf16_length address) 56))

  unfoldable pub new_challenge : Draw → String → AuthChallenge
  new_challenge d address =
      let expires_at = d.now + challenge_ttl_ms in
      record {
        challenge_id = d.uuid;
        stellar_address = address;
        nonce = d.nonce;
        message = challenge_message address d.nonce d.now expires_at;
        issued_at = d.now;
        expires_at = expires_at;
      }

  abbrev pub keep_challenge : Draw → AuthChallenge → Service → Service
  keep_challenge d challenge s =
      log_security_event
        (record s { active_challenges = insert d.uuid challenge s.active_challenges })
        (record {
          id = d.event_id;
          stellar_address = challenge.stellar_address;
          event_type = challenge_issued;
          risk_score = 0;
          details =
              ("challengeId", text d.uuid)
              ∷ ("noncePrefix", text (take_chars 8 d.nonce))
              ∷ ("expiresAt", number challenge.expires_at)
              ∷ [];
          timestamp = d.timestamp;
        })

  -- `none` is the error that an address of the wrong form raises; the state is then unchanged.
  unfoldable pub generate_challenge :
      Service → ChallengeRequest → Draw → Service × Option AuthChallenge
  unfolding new_challenge
  generate_challenge s req d = elim req.stellar_address [
    | none ↦ (s, none)
    | some address ↦
        let challenge = new_challenge d address in
        if is_public_address address
        then (keep_challenge d challenge s, some challenge)
        else (s, none)
  ]
