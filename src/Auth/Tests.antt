-- ===== src/Auth/Tests.antt =====
-- Concrete runs of the authentication service.
pub mod Encoding
use hikari.Prelude.{
  ℕ, ◌+◌, ◌≤◌, ◌<◌, ◌≡◌, ◌↔◌, refl, Bool, true, false, List, [], ◌∷◌, ◌++◌, Option, none, some,
  length, arith,
}
use hikari.Prelude.Text.{String, ◌==◌, includes, split, utf16_length}
use hikari.Prelude.Dict.{lookup, has, insert, erase}
use hikari.Auth.Types.{
  ChallengeRequest, AuthChallenge, VerifyRequest, AuthSession, SecurityEvent, Service, Draw,
  Validation, challenge_issued,
}
use hikari.Auth.Log.{push_bounded, max_security_logs, get_security_logs}
use hikari.Auth.Token.{session_ttl_ms, hash_fingerprint, session_payload, sign_payload}
use hikari.Auth.Challenge.{generate_challenge, is_public_address, new_challenge, challenge_message}
use hikari.Auth.Verify.{
  verify_ed25519_signature, new_session, open_session, check_challenge, verify_signature,
}
use hikari.Auth.Session.{same_client, check_session, validate_session, revoke_session}
use hikari.Auth.Soundness.{
  Accepts, verify_signature_iff, verify_signature_opens, verify_signature_refuses,
}
use hikari.Auth.Replay.{
  Call, generate, verify, validate, revoke, apply_call, apply_calls, nonce_used_once,
}
use hikari.Auth.Tokens.{validate_session_sound, revoked_is_invalid}
use hikari.Auth.LogBound.{IsBounded, apply_calls-IsBounded, get_security_logs-le}
use hikari.Auth.RoundTrip.{valid_for, issued_token_validates}
use Encoding.{host, host-TokenLaws, escape, unescape, unary, count, bytes_of, same_bytes}

abbrev pub address : String
address = "GAAAAAAAAAAAAAAAAAAAAAAAAAAAAAAAAAAAAAAAAAAAAAAAAAAAAAAA"

-- 64 bytes, of which the first is the length of the message
abbrev pub signature : String
signature = "\tAAAAAAAAAAAAAAAAAAAAAAAAAAAAAAAAAAAAAAAAAAAAAAAAAAAAAAAAAAAAAAA"

abbrev pub challenge : AuthChallenge
challenge = record {
  challenge_id = "c1";
  stellar_address = address;
  nonce = "n1";
  message = "a message";
  issued_at = 1000;
  expires_at = 301000;
}

abbrev pub service : Service
service = record {
  jwt_secret = "secret";
  active_challenges = ("c1", challenge) ∷ [];
  consumed_nonces = [];
  active_sessions = [];
  security_logs = [];
}

abbrev request : VerifyRequest
request = record {
  challenge_id = "c1";
  stellar_address = address;
  signature = signature;
  client_ip = some "10.0.0.1";
  user_agent = none;
}

abbrev pub draw : String → Draw
draw id = record {
  now = 2000;
  later = 2001;
  uuid = id;
  nonce = "n1";
  event_id = "e";
  timestamp = "t";
}

signed : verify_ed25519_signature host "a message" signature address ≡ true
unfolding verify_ed25519_signature bytes_of count
signed = refl

accepts : Accepts host service request (draw "s1") challenge
unfolding lookup
accepts = record {
  found = refl;
  fresh = omega arith;
  own_address = refl;
  unspent = refl;
  signed = signed;
}

-- The same nonce is drawn for a second challenge.
abbrev later_calls : List Call
later_calls =
    generate (record { stellar_address = some address; client_ip = none; user_agent = none })
      (draw "c2")
    ∷ []

abbrev after_calls : Service
after_calls = apply_calls host later_calls (verify_signature host service request (draw "s1")).0

abbrev second : VerifyRequest
second = record {
  challenge_id = "c2";
  stellar_address = address;
  signature = signature;
  client_ip = none;
  user_agent = none;
}

nonce_used_once_example : (verify_signature host after_calls second (draw "s2")).1.success ≡ false
unfolding apply_calls apply_call generate_challenge is_public_address new_challenge verify_signature
    check_challenge open_session lookup insert utf16_length verify_ed25519_signature bytes_of count
    erase
nonce_used_once_example =
    nonce_used_once host service request (draw "s1") challenge accepts later_calls second
      (draw "s2") (new_challenge host (draw "c2") address) refl refl

verify_signature_iff_example :
    ((verify_signature host service request (draw "s1")).1.success ≡ true)
    ↔ ((c : AuthChallenge) × Accepts host service request (draw "s1") c)
verify_signature_iff_example = verify_signature_iff host service request (draw "s1")

refused : (verify_signature host service second (draw "s1")).1.success ≡ false
unfolding verify_signature lookup
refused = refl

verify_signature_refuses_example :
    let (s', v) = verify_signature host service second (draw "s1") in
    (v.session ≡ none) × (s'.active_sessions ≡ []) × (s'.consumed_nonces ≡ [])
verify_signature_refuses_example = verify_signature_refuses host service second (draw "s1") refused

plain_id : includes b':' "s1" ≡ false
unfolding includes
plain_id = refl

plain_address : includes b':' address ≡ false
unfolding includes
plain_address = refl

issued_token_validates_example :
    let s' = (verify_signature host service request (draw "s1")).0 in
    let token = (new_session host "secret" request (draw "s1")).session_token in
    validate_session host s' token (some "10.0.0.1") none 3000
    ≡ (s', some (valid_for host host-TokenLaws address))
issued_token_validates_example =
    issued_token_validates host host-TokenLaws request (draw "s1") plain_id plain_address service
      challenge 3000 accepts (omega arith)

abbrev token : String
token = "s1:G:11111:f.secrets1:G:11111:f"

abbrev stored_session : AuthSession
stored_session = record {
  session_id = "s1";
  stellar_address = "G";
  session_token = token;
  expires_at = 5;
  ip_hash = "10ab0ab0ab1:unknown";
  created_at = 1;
}

abbrev logged_in : Service
logged_in = record service { active_sessions = (token, stored_session) ∷ [] }

token_validates :
    (validate_session host logged_in token (some "10.0.0.1") none 4).1
    ≡ some (valid_for host host-TokenLaws "G")
unfolding validate_session split includes unescape escape bytes_of same_bytes check_session count
    lookup same_client hash_fingerprint
token_validates = refl

abbrev revoked : Service
revoked = (revoke_session logged_in token (draw "r1")).0

abbrev revoked_answer : Validation
revoked_answer = record {
  valid = false;
  stellar_address = none;
  error = some "Session has been revoked or terminated.";
}

revoke_done : (revoke_session logged_in token (draw "r1")).1 ≡ true
unfolding revoke_session lookup
revoke_done = refl

revoked_refused :
    (validate_session host revoked token (some "10.0.0.1") none 4).1 ≡ some revoked_answer
unfolding validate_session split includes unescape escape bytes_of same_bytes check_session count
    lookup same_client hash_fingerprint revoke_session erase
revoked_refused = refl

revoked_is_invalid_example :
    (revoked_answer.valid ≡ false)
    × ((other : String)
        → (token == other) ≡ false
        → lookup other revoked.active_sessions ≡ lookup other logged_in.active_sessions)
revoked_is_invalid_example =
    revoked_is_invalid host logged_in token (draw "r1") (some "10.0.0.1") none 4 revoked_answer
      revoke_done revoked_refused

apply_calls-IsBounded_example : IsBounded (apply_calls host later_calls service)
apply_calls-IsBounded_example = apply_calls-IsBounded host later_calls service (omega arith)

abbrev event : String → SecurityEvent
event id = record {
  id = id;
  stellar_address = "G";
  event_type = challenge_issued;
  risk_score = 0;
  details = [];
  timestamp = "t";
}

abbrev two_events : Service
two_events = record service { security_logs = event "e1" ∷ event "e2" ∷ [] }
