-- ===== src/Auth/Replay.antt =====
-- A nonce opens one session at most, whatever calls come in between.
use hikari.Prelude.{
  ℕ, ◌≡◌, true, false, List, [], ◌∷◌, Option, some, arith, Bool-cases, Option-cases, inl, inr,
}
use hikari.Prelude.Text.{String}
use hikari.Prelude.Dict.{lookup, has, has-insert}
use hikari.Auth.Types.{Host, ChallengeRequest, AuthChallenge, VerifyRequest, Service, Draw}
use hikari.Auth.Challenge.{generate_challenge}
use hikari.Auth.Verify.{open_session, check_challenge, verify_signature}
use hikari.Auth.Session.{check_session, validate_session, revoke_session}
use hikari.Auth.Soundness.{Accepts, verify_signature_iff, verify_signature_opens}

-- A call of a public method that may change the state.
pub data Call : Type 0 where
  generate : ChallengeRequest → Draw → Call
  verify : VerifyRequest → Draw → Call
  validate : String → Option String → Option String → ℕ → Call
  revoke : String → Draw → Call

module _ (host : Host) where
  unfoldable pub apply_call : Service → Call → Service
  apply_call s (generate req d) = (generate_challenge host s req d).0
  apply_call s (verify req d) = (verify_signature host s req d).0
  apply_call s (validate token ip agent now) = (validate_session host s token ip agent now).0
  apply_call s (revoke token d) = (revoke_session s token d).0

  unfoldable pub apply_calls : List Call → Service → Service
  apply_calls [] s = s
  apply_calls (c ∷ cs) s = apply_calls cs (apply_call s c)

  check_challenge-has :
      (x : String) (s : Service) (req : VerifyRequest) (d : Draw) (c : AuthChallenge)
      → has x s.consumed_nonces ≡ true
      → has x (check_challenge host s req d c).0.consumed_nonces ≡ true
  unfolding check_challenge open_session
  check_challenge-has x s req d c h = ground (arith, has-insert c.nonce x tt s.consumed_nonces)

  verify_signature-has :
      (x : String) (s : Service) (req : VerifyRequest) (d : Draw)
      → has x s.consumed_nonces ≡ true
      → has x (verify_signature host s req d).0.consumed_nonces ≡ true
  unfolding verify_signature
  verify_signature-has x s req d h =
      elim (Option-cases (lookup req.challenge_id s.active_challenges)) [
        | inl missing ↦ rw (missing, verify_signature, has) h
        | inr (c, found) ↦ rw (found, verify_signature, has) (check_challenge-has x s req d c h)
      ]

  apply_call-has :
      (x : String) (s : Service) (c : Call)
      → has x s.consumed_nonces ≡ true
      → has x (apply_call s c).consumed_nonces ≡ true
  unfolding apply_call
  apply_call-has x s (generate req d) h = unfold generate_challenge in ground arith
  apply_call-has x s (verify req d) h = verify_signature-has x s req d h
  apply_call-has x s (validate token ip agent now) h =
      unfold validate_session check_session in ground arith
  apply_call-has x s (revoke token d) h = unfold revoke_session in ground arith

  apply_calls-has :
      (x : String) (cs : List Call) (s : Service)
      → has x s.consumed_nonces ≡ true
      → has x (apply_calls cs s).consumed_nonces ≡ true
  unfolding apply_calls
  apply_calls-has x [] s h = h
  apply_calls-has x (c ∷ cs) s h = apply_calls-has x cs (apply_call s c) (apply_call-has x s c h)

  twice :
      (x : String) (t : Service) (c' e : AuthChallenge) {req' : VerifyRequest} {d' : Draw}
      → lookup req'.challenge_id t.active_challenges ≡ some c'
      → Accepts host t req' d' e
      → c'.nonce ≡ x
      → has x t.consumed_nonces ≡ true
      → ⊥
  twice x t c' e found b same still =
      let one : c' ≡ e = cc (found, b.found) in ground (arith, one, b.unspent)

  -- Once a challenge c has been accepted, no verification succeeds with a challenge of the same
  -- nonce, whatever calls of the service are made in between.
  pub nonce_used_once :
      (s : Service) (req : VerifyRequest) (d : Draw) (c : AuthChallenge)
      → Accepts host s req d c
      → (cs : List Call) (req' : VerifyRequest) (d' : Draw) (c' : AuthChallenge)
      → let t = apply_calls cs (verify_signature host s req d).0 in
        lookup req'.challenge_id t.active_challenges ≡ some c'
        → c'.nonce ≡ c.nonce
        → (verify_signature host t req' d').1.success ≡ false
  nonce_used_once s req d c a cs req' d' c' found same =
      let (_, _, _, _, _, spent) = verify_signature_opens host s req d c a in
      let t = apply_calls cs (verify_signature host s req d).0 in
      let still : has c.nonce t.consumed_nonces ≡ true = apply_calls-has c.nonce cs _ spent in
      elim (Bool-cases (verify_signature host t req' d').1.success) [
        | inl accepted ↦
            let (e, b) = (verify_signature_iff host t req' d').0 accepted in
            absurd (twice c.nonce t c' e found b same still)
        | inr refused ↦ refused
      ]
