-- ===== src/Server/Yield/Reachable.antt =====
-- When `/api/yield-routes` has routes to show.
use hikari.Prelude.{◌≡◌, ◌↔◌, refl, true, List, [], ◌∷◌, map, some, arith, Option-cases, inl, inr}
use hikari.Prelude.Text.{String}
use hikari.Prelude.Number.{Number}
use hikari.Prelude.Except.{ok, ◌>>=◌}
use hikari.Prelude.Json.{Json, object, truthy, or_else}
use hikari.Server.Http.{Response, Reader, World, property, read_json_safe}
use hikari.Server.Yield.{
  Adapter, adapter_defs, present, total_value, adapter_contract, configured_rate, route_json, route,
  routes_of, routes_answer, yield_routes,
}

-- The element stands in one of the places of the list.
pub data Listed {A : Type 0} (a : A) : List A → Type 0 where
  here : {rest : List A} → Listed a (a ∷ rest)
  there : {b : A} {rest : List A} → Listed a rest → Listed a (b ∷ rest)

module _ {n : Number} (w : World n) (reader : Reader (Number.Num n))
    (yc : Json (Number.Num n)) where
  -- The adapter has a contract, and its total value can be read.
  abbrev pub IsReachable : Adapter → Type 0
  IsReachable a =
      (truthy n (adapter_contract w yc a) ≡ true)
      × ((tvl : String) × (total_value w reader (w.show (adapter_contract w yc a)) ≡ ok tvl))

  route-IsReachable :
      (a : Adapter) → IsReachable a → (j : Json (Number.Num n)) × (route w reader yc a ≡ some j)
  unfolding route
  route-IsReachable a (present_id, (tvl, value)) =
      let contract = adapter_contract w yc a in
      (
        route_json w a contract tvl (configured_rate w reader (w.show contract)),
        ground (arith, present_id, value),
      )

  IsReachable-route :
      (a : Adapter) {j : Json (Number.Num n)} → route w reader yc a ≡ some j → IsReachable a
  unfolding route
  IsReachable-route a e = ground arith

  abbrev shown : List Adapter → List (Json (Number.Num n))
  shown xs = present (map (route w reader yc) xs)

  some_shown :
      (a : Adapter) (xs : List Adapter)
      → Listed a xs
      → IsReachable a
      → (routes_answer w (shown xs)).status ≡ 200
  unfolding present routes_answer
  some_shown a [] l h = elim l [ ]
  some_shown a (_ ∷ rest) here h = let (j, e) = route-IsReachable a h in rw (e, present) refl
  some_shown a (b ∷ rest) (there l) h = elim (Option-cases (route w reader yc b)) [
    | inl missing ↦ rw (missing, present) (some_shown a rest l h)
    | inr (j, e) ↦ rw (e, present) refl
  ]

  shown_some :
      (xs : List Adapter)
      → (routes_answer w (shown xs)).status ≡ 200
      → (a : Adapter) × Listed a xs × IsReachable a
  unfolding present routes_answer
  shown_some [] h = absurd (ground arith)
  shown_some (b ∷ rest) h = elim (Option-cases (route w reader yc b)) [
    | inl missing ↦ let (a, l, r) = shown_some rest (rw (missing, present) at h) in (a, there l, r)
    | inr (j, e) ↦ (b, here, IsReachable-route b e)
  ]

  -- With a reader, and the object of the deployed contracts read, the answer is 200 exactly where
  -- one of the three adapters has a contract whose total value can be read.
  pub yield_routes_iff :
      (given : Json (Number.Num n))
      → w.reader ≡ some reader
      → property w "contracts" (read_json_safe w.contracts_file) ≡ ok given
      → or_else n given (object []) ≡ yc
      → (answer : Response (Number.Num n)) × (yield_routes w ≡ ok answer)
        × ((answer.status ≡ 200) ↔ ((a : Adapter) × Listed a adapter_defs × IsReachable a))
  unfolding yield_routes routes_of
  yield_routes_iff given r g c = (
    routes_answer w (shown adapter_defs),
    rw (g, ◌>>=◌, r, c) refl,
    (shown_some adapter_defs, λ (a, l, h). some_shown a adapter_defs l h),
  )
