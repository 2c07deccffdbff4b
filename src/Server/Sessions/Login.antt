-- ===== src/Server/Sessions/Login.antt =====
-- When `/api/v1/auth/verify` logs a wallet in.
use hikari.Prelude.{◌≡◌, ◌⊎◌, inl, inr, refl, true, false, some, Bool-cases, Option-cases}
use hikari.Prelude.Text.{String}
use hikari.Prelude.Dict.{lookup}
use hikari.Prelude.Number.{Number}
use hikari.Prelude.Except.{ok}
use hikari.Prelude.Json.{Json, get}
use hikari.Auth.Types.{AuthChallenge, AuthSession, Service, Verification}
use hikari.Auth.Types as Auth
use hikari.Auth.Verify.{verify_signature, open_session, new_session}
use hikari.Auth.Soundness.{
  Accepts, verify_signature_iff, verify_signature_opens, verify_signature_refuses, verify-eq-open,
}
use hikari.Database.Types as Db
use hikari.Database.Profiles.{no_defaults, touch_profile, is_account, get_or_create_user_profile}
use hikari.Server.Http.{Request, World, property, parse_body}
use hikari.Server.Replies.{State}
use hikari.Server.Sessions.{verify_request, load_profile, logged_in, verify_payload, verify_login}

module _ {n : Number} (host : Auth.Host) (w : World n) (st : State (Number.Num n)) (auth : Service)
    (req : Request) (d : Auth.Draw) (e : Db.Draw) (payload : Json (Number.Num n)) where
  abbrev pub asked : Auth.VerifyRequest
  asked = verify_request req payload

  profile_found :
      (db : Db.Database (Number.Num n)) (address : String)
      → is_account address ≡ true
      → (get_or_create_user_profile db address no_defaults e).1
        ≡ ok (touch_profile address no_defaults e db)
  unfolding get_or_create_user_profile
  profile_found db address valid = rw valid refl

  logged_in_status :
      (st' : State (Number.Num n)) (v : Verification) (address : String)
      → is_account address ≡ true
      → (logged_in n st' v address e).1.status ≡ 200
  unfolding logged_in load_profile
  logged_in_status st' v address valid = elim (Option-cases st'.database) [
    | inl none_ ↦ rw (none_, load_profile) refl
    | inr (db, there) ↦ rw (there, load_profile) (rw (profile_found db address valid) refl)
  ]

  logged_in_auth :
      (st' : State (Number.Num n)) (v : Verification) (address : String)
      → (logged_in n st' v address e).0.auth ≡ st'.auth
  unfolding logged_in
  logged_in_auth st' v address = refl

  accepted :
      (c : AuthChallenge)
      → Accepts host auth asked d c
      → verify_payload host w st auth req d e payload
        ≡ logged_in n
            (record st { auth = some (open_session host auth asked d c.nonce).0 })
            (open_session host auth asked d c.nonce).1
            asked.stellar_address
            e
  unfolding verify_payload open_session
  accepted c a = rw (verify-eq-open host auth asked d c a, verify_payload) refl

  refused :
      (verify_signature host auth asked d).1.success ≡ false
      → let (st', r) = verify_payload host w st auth req d e payload in
        (r.status ≡ 401)
        × ((auth' : Service) × (st'.auth ≡ some auth')
            × (auth'.active_sessions ≡ auth.active_sessions)
            × (auth'.consumed_nonces ≡ auth.consumed_nonces))
  unfolding verify_payload
  refused no_ =
      let (_, sessions, nonces) = verify_signature_refuses host auth asked d no_ in
      let (auth', v) = verify_signature host auth asked d in
      rw no_ (refl, (auth', refl, sessions, nonces))

  -- A login for a valid account, of a request that can be parsed: either a stored challenge is accepted,
  -- the answer is 200 and the session is stored, or the answer is 401, and no session is opened
  -- and no nonce spent.
  pub verify_login_lem :
      st.auth ≡ some auth
      → parse_body w req.body ≡ ok payload
      → property w "challengeId" payload ≡ ok (get "challengeId" payload)
      → is_account asked.stellar_address ≡ true
      → let (st', r) = verify_login host w st req d e in
        let session = new_session host auth.jwt_secret asked d in
        (((c : AuthChallenge) × Accepts host auth asked d c)
          × (r.status ≡ 200)
          × ((auth' : Service) × (st'.auth ≡ some auth')
              × (lookup session.session_token auth'.active_sessions ≡ some session)))
        ⊎ ((r.status ≡ 401)
            × ((auth' : Service) × (st'.auth ≡ some auth')
                × (auth'.active_sessions ≡ auth.active_sessions)
                × (auth'.consumed_nonces ≡ auth.consumed_nonces)))
  unfolding verify_login
  verify_login_lem there parsed given valid =
      rw (parsed, there, given)
        (elim (Bool-cases (verify_signature host auth asked d).1.success) [
          | inr no_ ↦ inr (refused no_)
          | inl yes_ ↦
              let (c, a) = (verify_signature_iff host auth asked d).0 yes_ in
              let (auth', v) = open_session host auth asked d c.nonce in
              let (_, _, _, stored, _, _) = verify_signature_opens host auth asked d c a in
              inl (
                (c, a),
                rw (accepted c a) (logged_in_status _ v asked.stellar_address valid),
                (
                  auth',
                  rw (accepted c a) (logged_in_auth _ v asked.stellar_address),
                  rw (verify-eq-open host auth asked d c a) at stored,
                ),
              )
        ])
