-- ===== src/Server/Tests/Files.antt =====
-- The breaker file, routes, ports and static files at concrete inputs.
use hikari.Prelude.{
  ℕ, ◌≡◌, ◌≢◌, ◌⊎◌, refl, true, false, [], ◌∷◌, none, some, if◌then◌else◌, ◌==◌, arith,
}
use hikari.Prelude.Int.{ℤ, pos}
use hikari.Prelude.Text.{String}
use hikari.Prelude.Text as Text
use hikari.Prelude.Number.{fixed_point}
use hikari.Prelude.Except.{ok}
use hikari.Prelude.Json.{
  Json, Fields, object, fields, num, str, arr, cons, nil, get, field_of, or_else,
}
use hikari.Server.Http.{property, read_json_safe}
use hikari.Server.Static.{Files, resolve, index_page, requested}
use hikari.Server.Static.Served.{resolve-cases}
use hikari.Server.Ports.{Listening, listens, reports, raises}
use hikari.Server.Tests.Surroundings.{world}

-- The file holds one figure and one log line.
abbrev earlier : Fields ℤ
earlier = fields (("tvl", num (pos 5)) ∷ ("recentLogs", arr (cons (str "start") nil)) ∷ [])

abbrev deployed : Json ℤ
deployed = get "contracts" (read_json_safe world.contracts_file)

deployed_read : property world "contracts" (read_json_safe world.contracts_file) ≡ ok deployed
unfolding property
deployed_read = refl

deployed_given : or_else fixed_point deployed (object []) ≡ deployed
unfolding get field_of or_else
deployed_given = refl

abbrev files : Files
files = record {
  public_dir = "/srv";
  join = λ a b. Text.◌⊕◌ a (Text.◌⊕◌ "/" b);
  extname = λ p. if Text.◌==◌ p "/srv/app.css" then ".css" else "";
  to_lower = λ s. s;
  exists_sync = λ p. Text.◌==◌ p "/srv/app.css";
  read_file = λ p. ok 10;
}

resolve-cases_example :
    ((path : String) × (resolve files "/app.css" ≡ some path)
      × ((files.exists_sync path ≡ true) ⊎ (path ≡ index_page files)))
    ⊎ ((resolve files "/app.css" ≡ none)
        × (files.exists_sync (requested files "/app.css") ≡ false)
        × (Text.is_empty (files.extname (requested files "/app.css")) ≡ false))
resolve-cases_example = resolve-cases files "/app.css"

-- Port 80 needs a privilege.
abbrev listen : ℕ → Listening
listen p = if p == 80 then reports "EACCES" else listens

calm : (p : ℕ) (e : String) → listen p ≢ raises e
calm p e h = ground arith
