-- ===== src/Auth/Soundness.antt =====
-- What a successful verification proves, and that a nonce opens one session at most.
use hikari.Prelude.{
  ◌+◌, ◌≤◌, ◌≡◌, ap, ◌↔◌, inl, inr, refl, true, false, none, some, Option-cases, arith,
}
use hikari.Prelude.Text.{eq_iff, eq_refl}
use hikari.Prelude.Dict.{lookup, has, lookup-insert, lookup-erase, has-insert_self}
use hikari.Auth.Types.{Host, AuthChallenge, VerifyRequest, Service, Draw, Verification}
use hikari.Auth.Token.{session_ttl_ms}
use hikari.Auth.Verify.{
  verify_ed25519_signature, new_session, open_session, check_challenge, verify_signature,
}

-- The conditions under which `verifySignature` accepts the challenge c that it has found.
pub record Accepts (host : Host) (s : Service) (req : VerifyRequest) (d : Draw) (c : AuthChallenge)
    : Type 0 where
  pub found : lookup req.challenge_id s.active_challenges ≡ some c
  pub fresh : d.now ≤ c.expires_at
  pub own_address : c.stellar_address ≡ req.stellar_address
  pub unspent : lookup c.nonce s.consumed_nonces ≡ none
  pub signed : verify_ed25519_signature host c.message req.signature req.stellar_address ≡ true

module _ (host : Host) (s : Service) (req : VerifyRequest) (d : Draw) where
  accepted :
      (c : AuthChallenge)
      → lookup req.challenge_id s.active_challenges ≡ some c
      → (check_challenge host s req d c).1.success ≡ true
      → Accepts host s req d c
  unfolding check_challenge
  accepted c e h = ground (arith, eq_iff c.stellar_address req.stellar_address)

  accepting :
      (c : AuthChallenge)
      → Accepts host s req d c
      → check_challenge host s req d c ≡ open_session host s req d c.nonce
  unfolding check_challenge
  accepting c a = ground (arith, eq_iff c.stellar_address req.stellar_address)

  sound :
      (verify_signature host s req d).1.success ≡ true
      → (c : AuthChallenge) × Accepts host s req d c
  unfolding verify_signature
  sound h = elim (Option-cases (lookup req.challenge_id s.active_challenges)) [
    | inl missing ↦ cc (rw (missing, verify_signature) at h)
    | inr (c, found) ↦ (c, accepted c found (rw (found, verify_signature) at h))
  ]

  pub verify-eq-open :
      (c : AuthChallenge)
      → Accepts host s req d c
      → verify_signature host s req d ≡ open_session host s req d c.nonce
  unfolding verify_signature
  verify-eq-open c a = rw (a.found, verify_signature) (accepting c a)

  -- Verification succeeds exactly where a stored challenge is accepted: not expired, for the same
  -- address, with a nonce that was never spent and a valid signature of its message.
  pub verify_signature_iff :
      ((verify_signature host s req d).1.success ≡ true)
      ↔ ((c : AuthChallenge) × Accepts host s req d c)
  unfolding open_session
  verify_signature_iff =
      (sound, λ (c, a). ap (λ (r : Service × Verification). r.1.success) (verify-eq-open c a))

  -- A successful verification drops the challenge, spends its nonce and stores the session that it
  -- returns, for the address of the request and 24 hours.
  pub verify_signature_opens :
      (c : AuthChallenge)
      → Accepts host s req d c
      → let (s', v) = verify_signature host s req d in
        let session = new_session host s.jwt_secret req d in
        (v.session ≡ some session)
        × (session.stellar_address ≡ req.stellar_address)
        × (session.expires_at ≡ d.later + session_ttl_ms)
        × (lookup session.session_token s'.active_sessions ≡ some session)
        × (lookup req.challenge_id s'.active_challenges ≡ none)
        × (has c.nonce s'.consumed_nonces ≡ true)
  unfolding open_session new_session
  verify_signature_opens c a = rw (verify-eq-open c a) (
    refl,
    refl,
    refl,
    simp (lookup-insert, eq_refl),
    simp (lookup-erase, eq_refl),
    has-insert_self c.nonce tt s.consumed_nonces,
  )

  pub verify_signature-jwt_secret : (verify_signature host s req d).0.jwt_secret ≡ s.jwt_secret
  unfolding verify_signature check_challenge open_session
  verify_signature-jwt_secret = ground arith

  -- A verification that fails opens no session and spends no nonce.
  pub verify_signature_refuses :
      (verify_signature host s req d).1.success ≡ false
      → let (s', v) = verify_signature host s req d in
        (v.session ≡ none)
        × (s'.active_sessions ≡ s.active_sessions)
        × (s'.consumed_nonces ≡ s.consumed_nonces)
  unfolding verify_signature check_challenge open_session
  verify_signature_refuses h = ground arith
