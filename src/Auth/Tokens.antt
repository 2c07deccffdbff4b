-- ===== src/Auth/Tokens.antt =====
-- Session tokens: what an issued token is worth, and when it stops being valid.
use hikari.Prelude.{ℕ, ◌≡◌, true, false, List, Option, none, some, arith, Bool-cases, inl, inr}
use hikari.Prelude.Text.{String, ◌==◌, eq_refl, includes}
use hikari.Prelude.Dict.{lookup, erase, lookup-erase}
use hikari.Auth.Types.{Host, AuthSession, Service, Draw, Validation}
use hikari.Auth.Session.{
  same_client, token_payload, check_session, validate_session, revoke_session,
}

-- What the tokens rely on: base64url is decoded to what was encoded, it and the hexadecimal digests
-- hold no separator, a number is parsed back, and equal bytes compare as equal.
pub record TokenLaws (host : Host) : Type 0 where
  pub decode-encode : (s : String) → host.from_base64url (host.to_base64url s) ≡ s
  pub encode_plain : (s : String) → includes b'.' (host.to_base64url s) ≡ false
  pub hmac_plain : (k s : String) → includes b'.' (host.hmac_sha256 k s) ≡ false
  pub decimal_plain : (t : ℕ) → includes b':' (host.decimal t) ≡ false
  pub parse-decimal : (t : ℕ) → host.parse_int (host.decimal t) ≡ some t
  pub equal_bytes : (bytes : List ℕ) → host.timing_safe_equal bytes bytes ≡ some true

module _ (host : Host) where
  check_session_sound :
      (s : Service) (token payload : String) (ip agent : Option String) (now : ℕ)
      → (check_session host s token payload ip agent now).1.valid ≡ true
      → (session : AuthSession) × (lookup token s.active_sessions ≡ some session)
        × (same_client host session ip agent ≡ true)
        × ((check_session host s token payload ip agent now).0 ≡ s)
  unfolding check_session
  check_session_sound s token payload ip agent now h = ground arith

  -- A token is only found valid while its session is stored, from the client that the session was
  -- opened for (where an address is given), and the check then changes nothing.
  pub validate_session_sound :
      (s : Service) (token : String) (ip agent : Option String) (now : ℕ) (v : Validation)
      → (validate_session host s token ip agent now).1 ≡ some v
      → v.valid ≡ true
      → (session : AuthSession) × (lookup token s.active_sessions ≡ some session)
        × (same_client host session ip agent ≡ true)
        × ((validate_session host s token ip agent now).0 ≡ s)
  unfolding validate_session
  validate_session_sound s token ip agent now v e h =
      ground (arith, check_session_sound s token (token_payload host token) ip agent now)

  revoke_session-sessions :
      (s : Service) (token : String) (d : Draw)
      → (revoke_session s token d).1 ≡ true
      → (revoke_session s token d).0.active_sessions ≡ erase token s.active_sessions
  unfolding revoke_session
  revoke_session-sessions s token d done = ground arith

  -- After its revocation a token is not valid, for any client at any time; the sessions of other
  -- tokens stay as they are.
  pub revoked_is_invalid :
      (s : Service) (token : String) (d : Draw) (ip agent : Option String) (now : ℕ)
      (v : Validation)
      → (revoke_session s token d).1 ≡ true
      → (validate_session host (revoke_session s token d).0 token ip agent now).1 ≡ some v
      → (v.valid ≡ false)
        × ((other : String)
            → (token == other) ≡ false
            → lookup other (revoke_session s token d).0.active_sessions
              ≡ lookup other s.active_sessions)
  revoked_is_invalid s token d ip agent now v done e =
      let gone = revoke_session-sessions s token d done in
      (
        elim (Bool-cases v.valid) [
          | inl accepted ↦
              let (session, stored, _, _) =
                validate_session_sound (revoke_session s token d).0 token ip agent now v e
                  accepted in
              let missing : lookup token (revoke_session s token d).0.active_sessions ≡ none =
                rw gone (simp (lookup-erase, eq_refl)) in
              cc (stored, missing)
          | inr refused ↦ refused
        ],
        λ other apart. rw gone (rw lookup-erase (rw apart)),
      )
