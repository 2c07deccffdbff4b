-- ===== src/Server/Ports/Active.antt =====
-- The ports that are active after the start.
use hikari.Prelude.{
  ℕ, ◌+◌, Bool, true, false, ◌||◌, ◌&&◌, List, [], ◌∷◌, ◌≡◌, ◌≢◌, refl, if◌then◌else◌, ◌==◌, arith,
}
use hikari.Prelude.Text.{String}
use hikari.Prelude.Except.{ok}
use hikari.Server.Ports.{
  Listening, listens, reports, raises, ports_to_try, start_server_on_port, active_listeners,
  bootstrap, outcome,
}

-- how often a port is listed
abbrev pub count : ℕ → List ℕ → ℕ
count q [] = 0
count q (p ∷ ps) = (if p == q then 1 else 0) + count q ps

abbrev pub does_listen : Listening → Bool
does_listen listens = true
does_listen _ = false

abbrev pub is_tried : ℕ → ℕ → Bool
is_tried primary q = (q == primary) || (q == 8080) || (q == 3001) || (q == 80)

outcome-ok : (l : Listening) → ((e : String) → l ≢ raises e) → outcome l ≡ ok (does_listen l)
outcome-ok listens calm = refl
outcome-ok (reports e) calm = refl
outcome-ok (raises e) calm = absurd (calm e refl)

count-ports_to_try :
    (primary q : ℕ) → count q (ports_to_try primary) ≡ (if is_tried primary q then 1 else 0)
unfolding ports_to_try
count-ports_to_try primary q = ground arith

module _ (listen : ℕ → Listening) where
  module _ (calm : (p : ℕ) (e : String) → listen p ≢ raises e) where
    start_server_on_port-ok : (p : ℕ) → start_server_on_port listen p ≡ ok (does_listen (listen p))
    unfolding start_server_on_port
    start_server_on_port-ok p = outcome-ok (listen p) (calm p)

    active_listeners-count :
        (ps : List ℕ)
        → (active : List ℕ) × (active_listeners listen ps ≡ ok active)
          × ((q : ℕ) → count q active ≡ (if does_listen (listen q) then count q ps else 0))
    unfolding active_listeners
    active_listeners-count [] = ([], refl, λ q. ground arith)
    active_listeners-count (p ∷ ps) =
        let (rest, e, counts) = active_listeners-count ps in
        (
          if does_listen (listen p) then p ∷ rest else rest,
          rw (start_server_on_port-ok p, e),
          λ q. let c = counts q in grind (arith, c),
        )

    -- Where no `listen` raises, the start ends with a list of active ports. A port is on it exactly
    -- once where it is the primary port or 8080, 3001 or 80 and the server listens on it, and not at
    -- all otherwise.
    pub bootstrap-count :
        (primary : ℕ)
        → (active : List ℕ) × (bootstrap listen primary ≡ ok active)
          × ((q : ℕ)
              → count q active ≡ (if is_tried primary q && does_listen (listen q) then 1 else 0))
    unfolding bootstrap
    bootstrap-count primary =
        let (active, e, counts) = active_listeners-count (ports_to_try primary) in
        (
          active,
          e,
          λ q.
              let tried = count-ports_to_try primary q in
              let c = counts q in ground (arith, tried, c),
        )
