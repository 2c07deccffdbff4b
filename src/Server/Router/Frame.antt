-- ===== src/Server/Router/Frame.antt =====
-- Which requests reach the authentication service.
use mathlib.Core.Bool.{false≢true}
use hikari.Prelude.{Bool, true, false, List, [], ◌∷◌, ◌≡◌, refl, arith}
use hikari.Prelude.Text.{String}
use hikari.Prelude.Number.{Number}
use hikari.Prelude.Json.{Json}
use hikari.Database.Types as Db
use hikari.Server.Http.{Request, World}
use hikari.Server.Replies.{State}
use hikari.Server.Users.{show_profile, get_profile, update_profile, put_profile, deposit_record}
use hikari.Server.Router.{Route, route_of, Surroundings, perform, handle_request}
use hikari.Server.Router.Routing.{elem, route_of-covered}

-- The handlers that do not call the authentication service, or only read its log.
unfoldable pub leaves_auth : Route → Bool
leaves_auth r = elim r [ Route.challenge ↦ false | Route.login ↦ false | _ ↦ true ]

abbrev pub auth_paths : List String
auth_paths = "/api/v1/auth/challenge" ∷ "/api/v1/auth/verify" ∷ []

module _ {n : Number} (h : Db.Host n.Num) (w : World n) (st : State n.Num) (req : Request)
    (d : Db.Draw) where
  get_profile-auth : (get_profile h w st req d).0.auth ≡ st.auth
  unfolding get_profile show_profile
  get_profile-auth = ground arith

  update_profile-auth :
      (address updates : Json n.Num) → (update_profile h w st address updates d).0.auth ≡ st.auth
  unfolding update_profile
  update_profile-auth address updates = ground arith

  put_profile-auth : (put_profile h w st req d).0.auth ≡ st.auth
  unfolding put_profile
  put_profile-auth = grind (arith, update_profile-auth)

  deposit_record-auth : (deposit_record h w st req d).0.auth ≡ st.auth
  unfolding deposit_record
  deposit_record-auth = ground arith

module _ {n : Number} (s : Surroundings n) where
  perform-auth :
      (r : Route) (st : State n.Num) (req : Request)
      → leaves_auth r ≡ true
      → (perform s r st req).0.auth ≡ st.auth
  unfolding perform leaves_auth
  perform-auth r st req =
      elim r as (λ k. leaves_auth k ≡ true → (perform s k st req).0.auth ≡ st.auth) [
        | Route.challenge ↦ λ h. absurd (false≢true h)
        | Route.login ↦ λ h. absurd (false≢true h)
        | Route.profile_query ↦ λ h. get_profile-auth s.db_host s.world st req s.db_draw
        | Route.profile_update ↦ λ h. put_profile-auth s.db_host s.world st req s.db_draw
        | Route.deposit_booking ↦ λ h. deposit_record-auth s.db_host s.world st req s.db_draw
        | _ ↦ λ h. refl
      ]

  -- A request for any path but the two of the wallet login leaves the authentication service as it
  -- is: its challenges, its nonces, its sessions and its log.
  pub handle_request-auth :
      (st : State n.Num) (req : Request)
      → elem req.pathname auth_paths ≡ false
      → (handle_request s st req).0.auth ≡ st.auth
  unfolding handle_request leaves_auth
  handle_request-auth st req other =
      let leaves =
        route_of-covered leaves_auth auth_paths (λ ms. false) req (λ ms h. absurd (false≢true h))
          refl refl other refl in
      perform-auth (route_of req) st req leaves
