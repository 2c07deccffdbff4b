-- ===== src/Auth/Log.antt =====
-- services/database/src/auth-service.ts: the bounded security log.
use hikari.Prelude.{ℕ, ◌-◌, List, [], ◌∷◌, ◌++◌, length, drop, ltb, ◌==◌ as nat_eq, if◌then◌else◌}
use hikari.Auth.Types.{SecurityEvent, Service}

abbrev pub max_security_logs : ℕ
max_security_logs = 500

-- `logSecurityEvent`: the oldest entry goes when there are more than 500.
unfoldable pub push_bounded : SecurityEvent → List SecurityEvent → List SecurityEvent
push_bounded event logs =
    let pushed = logs ++ event ∷ [] in
    if ltb max_security_logs (length pushed) then drop 1 pushed else pushed

abbrev pub log_security_event : Service → SecurityEvent → Service
log_security_event s event = record s { security_logs = push_bounded event s.security_logs }

-- `slice(-limit)`: the last entries; a limit of 0 is `slice(-0)`, which gives them all.
unfoldable pub get_security_logs : Service → ℕ → List SecurityEvent
get_security_logs s limit =
    if nat_eq limit 0
    then s.security_logs
    else drop (length s.security_logs - limit) s.security_logs
