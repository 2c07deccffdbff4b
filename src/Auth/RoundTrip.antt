-- ===== src/Auth/RoundTrip.antt =====
-- A token that `verifySignature` issues is one that `validateSession` accepts.
use Prim.Native.Char.{Char, code}
use Prim.Native.String.{[] as nil, ◌∷◌ as chars}
use mathlib.Core.Path.{ap₂, subst}
use text.Mathlib.TextLemmas.{nil-append, cons-append}
use hikari.Prelude.{
  ℕ, ◌+◌, ◌≤◌, ◌≡◌, refl, ap, ◌∙◌, true, false, not, ◌||◌, List, [], ◌∷◌, Option, none, some,
  get_elem?, arith,
}
use hikari.Prelude.Text.{String, ◌⊕◌, eq_iff, includes, is_empty, split}
use hikari.Prelude.Text.Splitting.{split_apart, split_whole, includes-append_sep}
use hikari.Prelude.Dict.{lookup}
use hikari.Auth.Types.{Host, AuthChallenge, VerifyRequest, AuthSession, Service, Draw, Validation}
use hikari.Auth.Token.{session_ttl_ms, hash_fingerprint, session_payload, sign_payload, or_default}
use hikari.Auth.Verify.{new_session, verify_signature}
use hikari.Auth.Session.{
  same_client, token_payload, token_signature, is_past, parse_expiry, check_session,
  validate_session,
}
use hikari.Auth.Soundness.{Accepts, verify_signature_opens, verify_signature-jwt_secret}
use hikari.Auth.Tokens.{TokenLaws}

join : (c : Char) (s : String) → (chars c nil) ⊕ s ≡ chars c s
join c s = cons-append c nil s ∙ ap (chars c) (nil-append s)

split_joined :
    (sep : ℕ) (a b : String) (c : Char)
    → code c ≡ sep
    → includes sep a ≡ false
    → split sep (a ⊕ (chars c nil) ⊕ b) ≡ a ∷ split sep b
split_joined sep a b c same absent = rw (join c b) (split_apart sep a b c same absent)

is_empty_of_includes : (sep : ℕ) (s : String) → includes sep s ≡ true → is_empty s ≡ false
unfolding includes
is_empty_of_includes sep nil h = cc
is_empty_of_includes sep (chars c s) h = refl

module _ (host : Host) (laws : TokenLaws host) where
  well_formed :
      (secret payload : String)
      → (is_empty (sign_payload host secret payload)
          || not (includes b'.' (sign_payload host secret payload)))
        ≡ false
  unfolding sign_payload
  well_formed secret payload =
      let dotted : includes b'.' (sign_payload host secret payload) ≡ true =
        rw (join "." (host.hmac_sha256 secret payload)) (
          includes-append_sep b'.' (host.to_base64url payload) (host.hmac_sha256 secret payload) "."
            refl) in
      ground (arith, dotted, is_empty_of_includes b'.' _ dotted)

  token_parts :
      (secret payload : String)
      → split b'.' (sign_payload host secret payload)
        ≡ host.to_base64url payload ∷ host.hmac_sha256 secret payload ∷ []
  unfolding sign_payload
  token_parts secret payload =
      split_joined b'.' (host.to_base64url payload) (host.hmac_sha256 secret payload) "." refl
        (laws.encode_plain payload)
      ∙ ap (◌∷◌ (host.to_base64url payload)) (split_whole b'.' _ (laws.hmac_plain secret payload))

  payload_parts :
      (req : VerifyRequest) (d : Draw)
      → includes b':' d.uuid ≡ false
      → includes b':' req.stellar_address ≡ false
      → split b':' (session_payload host req d)
        ≡ d.uuid
          ∷ req.stellar_address
          ∷ host.decimal (d.later + session_ttl_ms)
          ∷ split b':' (hash_fingerprint host req.client_ip req.user_agent)
  unfolding session_payload
  payload_parts req d id_plain address_plain =
      split_joined b':' d.uuid _ ":" refl id_plain
      ∙ ap (◌∷◌ d.uuid) (
          split_joined b':' req.stellar_address _ ":" refl address_plain
          ∙ ap (◌∷◌ req.stellar_address) (
              split_joined b':' (host.decimal (d.later + session_ttl_ms)) _ ":" refl
                (laws.decimal_plain _)))

  token_payload-sign :
      (secret payload : String) → token_payload host (sign_payload host secret payload) ≡ payload
  token_payload-sign secret payload =
      ap (λ (ps : List String). host.from_base64url (or_default "" (get_elem? ps 0)))
        (token_parts secret payload)
      ∙ laws.decode-encode payload

  token_signature-sign :
      (secret payload : String)
      → token_signature host (sign_payload host secret payload)
        ≡ host.bytes_of_hex (host.hmac_sha256 secret payload)
  token_signature-sign secret payload =
      ap (λ (ps : List String). host.bytes_of_hex (or_default "" (get_elem? ps 1)))
        (token_parts secret payload)

  never_past :
      (now t : ℕ) → now ≤ t → is_past host now (parse_expiry host (some (host.decimal t))) ≡ false
  never_past now t early = rw laws.parse-decimal (ground arith)

  same_fingerprint :
      (session : AuthSession) (ip agent : Option String)
      → session.ip_hash ≡ hash_fingerprint host ip agent
      → same_client host session ip agent ≡ true
  unfolding same_client
  same_fingerprint session none agent same = refl
  same_fingerprint session (some ip) agent same =
      ground (arith, eq_iff session.ip_hash (hash_fingerprint host (some ip) agent))

  own_client :
      (secret : String) (req : VerifyRequest) (d : Draw)
      → same_client host (new_session host secret req d) req.client_ip req.user_agent ≡ true
  unfolding new_session
  own_client secret req d =
      same_fingerprint (new_session host secret req d) req.client_ip req.user_agent refl

  signature_checks :
      (secret payload : String)
      → host.timing_safe_equal (token_signature host (sign_payload host secret payload)) (
          host.bytes_of_hex
            (host.hmac_sha256 secret (token_payload host (sign_payload host secret payload))))
        ≡ some true
  signature_checks secret payload =
      ap₂ host.timing_safe_equal (token_signature-sign secret payload) (
        ap (λ p. host.bytes_of_hex (host.hmac_sha256 secret p)) (token_payload-sign secret payload))
      ∙ laws.equal_bytes _

  signed_token :
      (t : Service) (payload : String) (ip agent : Option String) (now : ℕ)
      → let token = sign_payload host t.jwt_secret payload in
        let r = check_session host t token payload ip agent now in
        validate_session host t token ip agent now ≡ (r.0, some r.1)
  unfolding validate_session
  signed_token t payload ip agent now =
      rw (well_formed t.jwt_secret payload)
        (rw (signature_checks t.jwt_secret payload, token_payload-sign t.jwt_secret payload) refl)

  abbrev pub valid_for : String → Validation
  valid_for address = record { valid = true; stellar_address = some address; error = none }

  module _ (req : VerifyRequest) (d : Draw) (id_plain : includes b':' d.uuid ≡ false)
      (address_plain : includes b':' req.stellar_address ≡ false) where
    check_issued :
        (t : Service) (token secret : String) (now : ℕ)
        → now ≤ d.later + session_ttl_ms
        → lookup token t.active_sessions ≡ some (new_session host secret req d)
        → check_session host t token (session_payload host req d) req.client_ip req.user_agent now
          ≡ (t, valid_for req.stellar_address)
    unfolding check_session
    check_issued t token secret now early stored = ground (
      arith,
      payload_parts req d id_plain address_plain,
      never_past now (d.later + session_ttl_ms) early,
      own_client secret req d,
    )

    -- The token of a session that a verification opened is valid until it expires, for the client
    -- that opened it, and stands for the address that was verified.
    pub issued_token_validates :
        (s : Service) (c : AuthChallenge) (now : ℕ)
        → Accepts host s req d c
        → now ≤ d.later + session_ttl_ms
        → let s' = (verify_signature host s req d).0 in
          let token = (new_session host s.jwt_secret req d).session_token in
          validate_session host s' token req.client_ip req.user_agent now
          ≡ (s', some (valid_for req.stellar_address))
    unfolding new_session
    issued_token_validates s c now a early =
        let s' : Service = (verify_signature host s req d).0 in
        let same : s'.jwt_secret ≡ s.jwt_secret = verify_signature-jwt_secret host s req d in
        let (_, _, _, stored, _, _) = verify_signature_opens host s req d c a in
        let token = sign_payload host s.jwt_secret (session_payload host req d) in
        subst
          (λ (secret : String).
            let r =
              check_session host s' (sign_payload host secret (session_payload host req d))
                (session_payload host req d) req.client_ip req.user_agent now in
            validate_session host s' (sign_payload host secret (session_payload host req d))
              req.client_ip req.user_agent now
            ≡ (r.0, some r.1))
          same (signed_token s' (session_payload host req d) req.client_ip req.user_agent now)
        ∙ ap (λ (r : Service × Validation). (r.0, some r.1))
            (check_issued s' token s.jwt_secret now early stored)
