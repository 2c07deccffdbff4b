-- ===== src/Server/Sessions.antt =====
-- frontend/server.js: `/api/v1/auth/challenge`, `/api/v1/auth/verify` and `/api/v1/security/logs`, on the
-- state of the authentication service and of the database. A service that could not be loaded is `none`.
pub mod Login
use hikari.Prelude.{
  ℕ, Bool, true, false, not, ◌&&◌, List, [], ◌∷◌, map, Option, none, some, if◌then◌else◌,
}
use hikari.Prelude.Int.{pos}
use hikari.Prelude.Text.{String, ◌==◌}
use hikari.Prelude.Number.{Number}
use hikari.Prelude.Except.{Except, ok, thrown, ◌>>=◌}
use hikari.Prelude.Json.{Json, undefined, null, bool, num, str, obj, object, array, get, truthy}
use hikari.Auth.Types.{
  ChallengeRequest, AuthChallenge, VerifyRequest, AuthSession, SecurityEvent, EventType, Detail,
  text, number, challenge_issued, auth_success, auth_failed, replay_attack_blocked, session_revoked,
  session_expired, Service, Verification,
}
use hikari.Auth.Types as Auth
use hikari.Auth.Challenge.{generate_challenge}
use hikari.Auth.Verify.{verify_signature}
use hikari.Auth.Log.{get_security_logs}
use hikari.Database.Types.{UserProfile, Database}
use hikari.Database.Types as Db
use hikari.Database.Profiles.{no_defaults, get_or_create_user_profile}
use hikari.Server.Http.{Request, Response, FileState, World, respond, property, parse_body}
use hikari.Server.Replies.{
  State, handle, event_name, opt_text, as_text, is_text, int_json, challenge_json, session_json,
  verification_json, profile_json, detail_json, event_json, refused_json,
}

abbrev pub offline : String
offline = "Authentication service offline"

abbrev pub bad_format : String
bad_format =
    "Invalid Stellar public address format. Address must begin with 'G' and contain 56 characters."

-- The request to the service. A signature that is no text fails as an empty one does: the service catches
-- the TypeError that reading it raises.
abbrev pub verify_request : {N : Type 0} → Request → Json N → VerifyRequest
verify_request req payload = record {
  challenge_id = as_text (get "challengeId" payload);
  stellar_address = as_text (get "stellarAddress" payload);
  signature = as_text (get "signature" payload);
  client_ip = some req.client_ip;
  user_agent = some req.user_agent;
}

module _ (n : Number) where
  open n use {Num, of_ℤ}

  unfoldable pub security_logs : State Num → Response Num
  security_logs st =
      let logs : List SecurityEvent = elim st.auth [
        | none ↦ []
        | some auth ↦ get_security_logs auth 50
      ] in
      respond 200 (object (("success", bool true) ∷ ("logs", array (map (event_json n) logs)) ∷ []))

  -- the profile of the address, and the end of the handler
  unfoldable pub load_profile :
      Option (Database Num)
      → String
      → Db.Draw
      → Option (Database Num) × Except (Option (UserProfile Num))
  load_profile none address d = (none, ok none)
  load_profile (some db) address d =
      let (db', r) = get_or_create_user_profile db address no_defaults d in
      (some db', handle r (λ e. thrown e) λ u. ok (some u))

  unfoldable pub logged_in : State Num → Verification → String → Db.Draw → State Num × Response Num
  unfolding load_profile
  logged_in st v address d =
      let (db', r) = load_profile st.database address d in
      (
        record st { database = db' },
        handle r (λ e. refused_json 400 e)
            λ user. respond 200 (
              object (
                ("success", bool true)
                ∷ ("session", session_json n v.session)
                ∷ ("user", profile_json n user)
                ∷ [])),
      )

module _ {n : Number} (host : Auth.Host) (w : World n) where
  open n use {Num}

  -- `stellarAddress` of a challenge request: a value that is neither a text nor false as a Boolean
  -- has no `startsWith`.
  abbrev pub address_of : Json Num → Except (Option String)
  address_of (str s) = ok (some s)
  address_of v = if truthy n v then thrown w.type_error else ok none

  -- the `try` of the handler
  unfoldable pub challenge_attempt :
      Service → Request → Auth.Draw → Json Num → Service × Except AuthChallenge
  challenge_attempt auth req d payload =
      handle (property w "stellarAddress" payload) (λ e. (auth, thrown e))
        λ v.
          handle (address_of v) (λ e. (auth, thrown e))
            λ address.
              let (auth', r) =
                generate_challenge host auth
                  (record {
                    stellar_address = address;
                    client_ip = some req.client_ip;
                    user_agent = some req.user_agent;
                  })
                  d in
              elim r [ none ↦ (auth', thrown bad_format) | some c ↦ (auth', ok c) ]

  unfoldable pub issue_challenge : State Num → Request → Auth.Draw → State Num × Response Num
  unfolding challenge_attempt
  issue_challenge st req d =
      handle (parse_body w req.body) (λ e. (st, refused_json 400 e))
        λ payload. elim st.auth [
          | none ↦ (st, refused_json 400 offline)
          | some auth ↦
              let (auth', r) = challenge_attempt auth req d payload in
              (
                record st { auth = some auth' },
                handle r (λ e. refused_json 400 e)
                    λ c.
                      respond 200
                        (object (("success", bool true) ∷ ("challenge", challenge_json n c) ∷ [])),
              )
        ]

  unfoldable pub verify_payload :
      State Num → Service → Request → Auth.Draw → Db.Draw → Json Num → State Num × Response Num
  unfolding logged_in
  verify_payload st auth req d e payload =
      let r = verify_request req payload in
      let (auth', v) = verify_signature host auth r d in
      let st' : State Num = record st { auth = some auth' } in
      if not v.success
      then (st', respond 401 (verification_json n v))
      else logged_in n st' v r.stellar_address e

  unfoldable pub verify_login : State Num → Request → Auth.Draw → Db.Draw → State Num × Response Num
  verify_login st req d e =
      handle (parse_body w req.body) (λ m. (st, refused_json 400 m))
        λ payload. elim st.auth [
          | none ↦ (st, refused_json 400 offline)
          | some auth ↦
              handle (property w "challengeId" payload) (λ m. (st, refused_json 400 m))
                λ v. verify_payload st auth req d e payload
        ]
