-- ===== src/Auth/Types.antt =====
-- services/database/src/auth-service.ts: the data of the wallet authentication service, and what it
-- takes from its host (Node's crypto and Buffer, Date, the Stellar SDK's Keypair).
use hikari.Prelude.{ℕ, Bool, List, Option}
use hikari.Prelude.Text.{String}
use hikari.Prelude.Dict.{Dict}

pub record Host : Type 1 where
  pub Key : Type 0
  pub sha256 : String → String
  pub hmac_sha256 : String → String → String
  pub to_base64url : String → String
  pub from_base64url : String → String
  -- `Buffer.from(s, "hex")` and `Buffer.from(s, "base64")`, as bytes
  pub bytes_of_hex : String → List ℕ
  pub bytes_of_base64 : String → List ℕ
  -- `/^[0-9a-fA-F]+$/.test(s)`
  pub is_hex : String → Bool
  pub trim : String → String
  -- `crypto.timingSafeEqual`: it raises (`none`) if the lengths differ
  pub timing_safe_equal : List ℕ → List ℕ → Option Bool
  -- `new Date(t).toISOString()`, a number in a template, and `parseInt(s, 10)` (`none` is NaN)
  pub iso : ℕ → String
  pub decimal : ℕ → String
  pub parse_int : String → Option ℕ
  -- `Keypair.fromPublicKey` and `keypair.verify`; both may raise
  pub from_public_key : String → Option Key
  pub key_verify : Key → String → List ℕ → Option Bool

pub record ChallengeRequest : Type 0 where
  -- undefined is `none`
  pub stellar_address : Option String
  pub client_ip : Option String
  pub user_agent : Option String

pub record AuthChallenge : Type 0 where
  pub challenge_id : String
  pub stellar_address : String
  pub nonce : String
  pub message : String
  pub issued_at : ℕ
  pub expires_at : ℕ

pub record VerifyRequest : Type 0 where
  pub challenge_id : String
  pub stellar_address : String
  pub signature : String
  pub client_ip : Option String
  pub user_agent : Option String

pub record AuthSession : Type 0 where
  pub session_id : String
  pub stellar_address : String
  pub session_token : String
  pub expires_at : ℕ
  pub ip_hash : String
  pub created_at : ℕ

pub data EventType : Type 0 where
  challenge_issued auth_success auth_failed replay_attack_blocked : EventType
  session_revoked session_expired : EventType

pub data Detail : Type 0 where
  text : String → Detail
  number : ℕ → Detail

pub record SecurityEvent : Type 0 where
  pub id : String
  pub stellar_address : String
  pub event_type : EventType
  pub risk_score : ℕ
  pub details : List (String × Detail)
  pub timestamp : String

-- `HikariWalletSecurityService`
pub record Service : Type 0 where
  pub jwt_secret : String
  pub active_challenges : Dict AuthChallenge
  pub consumed_nonces : Dict (Unit {0})
  pub active_sessions : Dict AuthSession
  pub security_logs : List SecurityEvent

-- What one call reads from the clock and the random source: the first `Date.now()`, the later one,
-- the identifier and nonce that it draws, and the identifier and time of its log entry.
pub record Draw : Type 0 where
  pub now : ℕ
  pub later : ℕ
  pub uuid : String
  pub nonce : String
  pub event_id : String
  pub timestamp : String

-- The object that `verifySignature` returns.
pub record Verification : Type 0 where
  pub success : Bool
  pub session : Option AuthSession
  pub error : Option String

-- The object that `validateSession` returns.
pub record Validation : Type 0 where
  pub valid : Bool
  pub stellar_address : Option String
  pub error : Option String
