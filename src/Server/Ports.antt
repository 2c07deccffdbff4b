-- ===== src/Server/Ports.antt =====
-- frontend/server.js: `bootstrap`, which listens on the primary port and the backup ports one after
-- the other. The primary port is a natural number.
pub mod Active
use hikari.Prelude.{ℕ, Bool, true, false, not, List, [], ◌∷◌, if◌then◌else◌, ◌==◌}
use hikari.Prelude.Text.{String}
use hikari.Prelude.Except.{Except, ok, thrown, ◌>>=◌}

-- What `listen` does on a port: it listens, reports an error to the handler of "error" (a busy port, a
-- missing privilege, another), or raises at once, which rejects the promise.
pub data Listening : Type 0 where
  listens : Listening
  reports : String → Listening
  raises : String → Listening

abbrev pub backup_ports : List ℕ
backup_ports = 8080 ∷ 3001 ∷ 80 ∷ []

abbrev pub keep : (ℕ → Bool) → List ℕ → List ℕ
keep f [] = []
keep f (p ∷ ps) = let rest = keep f ps in if f p then p ∷ rest else rest

unfoldable pub ports_to_try : ℕ → List ℕ
ports_to_try primary = primary ∷ keep (λ p. not (p == primary)) backup_ports

-- what the promise of `startServerOnPort` comes to: its `success`, or a rejection
abbrev pub outcome : Listening → Except Bool
outcome listens = ok true
outcome (reports e) = ok false
outcome (raises e) = thrown e

unfoldable pub start_server_on_port : (ℕ → Listening) → ℕ → Except Bool
start_server_on_port listen port = outcome (listen port)

unfoldable pub active_listeners : (ℕ → Listening) → List ℕ → Except (List ℕ)
active_listeners listen [] = ok []
active_listeners listen (p ∷ ps) = do
  success ← start_server_on_port listen p
  rest ← active_listeners listen ps
  ok (if success then p ∷ rest else rest)

-- The ports that the server reports as active.
unfoldable pub bootstrap : (ℕ → Listening) → ℕ → Except (List ℕ)
bootstrap listen primary = active_listeners listen (ports_to_try primary)
