-- ===== src/Auth/LogBound.antt =====
-- The security log never outgrows its bound.
use hikari.Prelude.{
  ℕ, ◌≤◌, ◌<◌, ◌≡◌, List, [], ◌∷◌, ◌++◌, length, take, take-append-drop, ◌-◌, length-append,
  length-drop, arith, Option-cases, inl, inr,
}
use hikari.Prelude.Dict.{lookup}
use hikari.Auth.Types.{Host, AuthChallenge, VerifyRequest, SecurityEvent, Service, Draw}
use hikari.Auth.Log.{push_bounded, max_security_logs, get_security_logs}
use hikari.Auth.Challenge.{generate_challenge}
use hikari.Auth.Verify.{open_session, check_challenge, verify_signature}
use hikari.Auth.Session.{check_session, validate_session, revoke_session}
use hikari.Auth.Replay.{Call, generate, verify, validate, revoke, apply_call, apply_calls}

abbrev pub IsBounded : Service → Type 0
IsBounded s = length s.security_logs ≤ max_security_logs

push_bounded-le :
    (e : SecurityEvent) (logs : List SecurityEvent)
    → length logs ≤ max_security_logs
    → length (push_bounded e logs) ≤ max_security_logs
unfolding push_bounded
push_bounded-le e logs h =
    ground (arith, length-append logs (e ∷ []), length-drop 1 (logs ++ e ∷ []))

module _ (host : Host) where
  check_challenge-IsBounded :
      (s : Service) (req : VerifyRequest) (d : Draw) (c : AuthChallenge)
      → IsBounded s
      → IsBounded (check_challenge host s req d c).0
  unfolding check_challenge open_session
  check_challenge-IsBounded s req d c h = grind (arith, push_bounded-le)

  verify_signature-IsBounded :
      (s : Service) (req : VerifyRequest) (d : Draw)
      → IsBounded s
      → IsBounded (verify_signature host s req d).0
  unfolding verify_signature
  verify_signature-IsBounded s req d h =
      elim (Option-cases (lookup req.challenge_id s.active_challenges)) [
        | inl missing ↦ rw (missing, verify_signature) (push_bounded-le _ s.security_logs h)
        | inr (c, found) ↦ rw (found, verify_signature) (check_challenge-IsBounded s req d c h)
      ]

  apply_call-IsBounded : (s : Service) (c : Call) → IsBounded s → IsBounded (apply_call host s c)
  unfolding apply_call generate_challenge validate_session check_session revoke_session
  apply_call-IsBounded s (generate req d) h = grind (arith, push_bounded-le)
  apply_call-IsBounded s (verify req d) h = verify_signature-IsBounded s req d h
  apply_call-IsBounded s (validate token ip agent now) h = ground arith
  apply_call-IsBounded s (revoke token d) h = grind (arith, push_bounded-le)

  -- The log holds at most 500 entries after any sequence of calls.
  pub apply_calls-IsBounded :
      (cs : List Call) (s : Service) → IsBounded s → IsBounded (apply_calls host cs s)
  unfolding apply_calls
  apply_calls-IsBounded [] s h = h
  apply_calls-IsBounded (c ∷ cs) s h =
      apply_calls-IsBounded cs (apply_call host s c) (apply_call-IsBounded s c h)

-- The entries that are returned for a limit are no more than the limit asks for, and they are the
-- last ones of the log.
pub get_security_logs-le :
    (s : Service) (limit : ℕ)
    → 0 < limit
    → (length (get_security_logs s limit) ≤ limit)
      × ((older : List SecurityEvent) × (older ++ get_security_logs s limit ≡ s.security_logs))
unfolding get_security_logs
get_security_logs-le s limit h =
    let skipped = length s.security_logs - limit in
    (
      ground (arith, length-drop skipped s.security_logs),
      (take skipped s.security_logs, grind (arith, take-append-drop skipped s.security_logs)),
    )
