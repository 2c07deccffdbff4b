-- ===== src/Server/Router/Routing.antt =====
-- What the routing implies for the state and for the reply.
use hikari.Prelude.{
  Bool, true, false, not, ◌||◌, ◌&&◌, List, [], ◌∷◌, ◌≡◌, ◌≢◌, refl, ap, ◌∙◌, inl, inr, Bool-cases,
  arith,
}
use mathlib.Core.Bool.{false≢true}
use hikari.Prelude.Text.{String, ◌==◌, eq_iff}
use hikari.Prelude.Number.{Number}
use hikari.Server.Http.{Request}
use hikari.Server.Replies.{State}
use hikari.Server.Router.{
  Route, Pattern, exactly, below, Methods, fits, takes, table, first_match, preflight, public_file,
  route_of, Surroundings, perform, handle_request,
}

-- one of the paths
abbrev pub elem : String → List String → Bool
elem p [] = false
elem p (q ∷ qs) = (p == q) || elem p qs

abbrev pub exact_in : List String → Pattern → Bool
exact_in paths (exactly s) = elem s paths
exact_in paths (below s) = false

exact_in-fits :
    (paths : List String) (p : Pattern) (path : String)
    → exact_in paths p ≡ true
    → fits p path ≡ true
    → elem path paths ≡ true
exact_in-fits paths (exactly s) path h f = ap (λ t. elem t paths) ((eq_iff path s).0 f) ∙ h
exact_in-fits paths (below s) path h f = ground arith

module _ (good : Route → Bool) (paths : List String) (skipped : Methods → Bool) where
  -- Every entry has a good route, stands for one of the paths, or is skipped for its methods.
  abbrev covered : List (Pattern × Methods × Route) → Bool
  covered [] = true
  covered ((p, ms, r) ∷ ts) = (good r || exact_in paths p || skipped ms) && covered ts

  first_match-covered :
      (m path : String) (ts : List (Pattern × Methods × Route))
      → ((ms : Methods) → skipped ms ≡ true → takes ms m ≡ false)
      → good public_file ≡ true
      → elem path paths ≡ false
      → covered ts ≡ true
      → good (first_match ts m path) ≡ true
  unfolding first_match
  first_match-covered m path [] skip file other h = file
  first_match-covered m path ((p, ms, r) ∷ ts) skip file other h =
      let rest = first_match-covered m path ts skip file other in
      let listed = exact_in-fits paths p path in
      let refused = skip ms in ground (arith, rest, listed, refused)

  pub route_of-covered :
      (req : Request)
      → ((ms : Methods) → skipped ms ≡ true → takes ms req.method ≡ false)
      → good public_file ≡ true
      → good preflight ≡ true
      → elem req.pathname paths ≡ false
      → covered table ≡ true
      → good (route_of req) ≡ true
  unfolding route_of
  route_of-covered req skip file options other h =
      let matched = first_match-covered req.method req.pathname table skip file other h in
      ground (arith, matched)

-- The handlers that leave the state as it is, by their definitions.
unfoldable pub only_reads : Route → Bool
only_reads r = elim r [
  | Route.cycle_trigger ↦ false
  | Route.shock ↦ false
  | Route.breaker_reset ↦ false
  | Route.challenge ↦ false
  | Route.login ↦ false
  | Route.profile_query ↦ false
  | Route.profile_update ↦ false
  | Route.deposit_booking ↦ false
  | _ ↦ true
]

-- The handlers whose errors all become answers.
unfoldable pub always_replies : Route → Bool
always_replies r = elim r [
  | Route.telemetry_query ↦ false
  | Route.contracts_query ↦ false
  | Route.yield_query ↦ false
  | Route.proposals_query ↦ false
  | Route.shock ↦ false
  | Route.breaker_reset ↦ false
  | Route.profile_query ↦ false
  | Route.social_status_query ↦ false
  | Route.social_feed_query ↦ false
  | Route.social_leaderboard_query ↦ false
  | _ ↦ true
]

-- The paths whose handlers let an error through.
abbrev pub may_fail : List String
may_fail =
    "/api/telemetry" ∷ "/api/contracts" ∷ "/api/yield-routes" ∷ "/api/governance/proposals"
    ∷ "/api/simulate-shock" ∷ "/api/reset-circuit-breaker" ∷ "/api/v1/user/profile"
    ∷ "/api/v1/social/status" ∷ "/api/v1/social/feed" ∷ "/api/v1/social/leaderboard" ∷ []

elem_single : (p q : String) → p ≢ q → elem p (q ∷ []) ≡ false
elem_single p q h = elim (Bool-cases (p == q)) [
  | inl same ↦ absurd (h ((eq_iff p q).0 same))
  | inr other ↦ rw other
]

abbrev not_get : Methods → Bool
not_get ms = not (takes ms "GET")

module _ {n : Number} (s : Surroundings n) where
  perform-keeps :
      (r : Route) (st : State n.Num) (req : Request)
      → only_reads r ≡ true
      → (perform s r st req).0 ≡ st
  unfolding perform only_reads
  perform-keeps r st req = elim r as (λ k. only_reads k ≡ true → (perform s k st req).0 ≡ st) [
    | Route.cycle_trigger ↦ λ h. absurd (false≢true h)
    | Route.shock ↦ λ h. absurd (false≢true h)
    | Route.breaker_reset ↦ λ h. absurd (false≢true h)
    | Route.challenge ↦ λ h. absurd (false≢true h)
    | Route.login ↦ λ h. absurd (false≢true h)
    | Route.profile_query ↦ λ h. absurd (false≢true h)
    | Route.profile_update ↦ λ h. absurd (false≢true h)
    | Route.deposit_booking ↦ λ h. absurd (false≢true h)
    | _ ↦ λ h. refl
  ]

  -- A GET request changes nothing of the state, unless it is for the profile of a user.
  pub get_keeps_state :
      (st : State n.Num) (req : Request)
      → req.method ≡ "GET"
      → req.pathname ≢ "/api/v1/user/profile"
      → (handle_request s st req).0 ≡ st
  unfolding handle_request only_reads
  get_keeps_state st req g other =
      let listed = elem_single req.pathname "/api/v1/user/profile" other in
      let keeps =
        route_of-covered only_reads ("/api/v1/user/profile" ∷ []) not_get req
          (λ ms h. ground (arith, g)) refl refl listed refl in
      perform-keeps (route_of req) st req keeps
