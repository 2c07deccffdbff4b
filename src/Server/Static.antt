-- ===== src/Server/Static.antt =====
-- frontend/server.js: the files under `public`, and the page that stands in for a path without one.
pub mod Served
use Prim.Native.Char.{code}
use Prim.Native.String.{[], ◌∷◌}
use hikari.Prelude.{
  ℕ, Bool, true, false, not, ◌||◌, List, Option, none, some, if◌then◌else◌, ◌==◌ as nat_eq,
}
use hikari.Prelude.Text.{String, ◌⊕◌, ◌==◌, is_empty, includes}
use hikari.Prelude.Except.{Except, ok, thrown}
use hikari.Server.Http.{Request, Response, empty, plain, file, length_only}

-- The file system and Node's `path`.
pub record Files : Type 0 where
  pub public_dir : String
  pub join : String → String → String
  pub extname : String → String
  pub to_lower : String → String
  pub exists_sync : String → Bool
  -- a file's length in bytes, or the message of the error of the read
  pub read_file : String → Except ℕ

abbrev pub text_type : String
text_type = "text/plain; charset=utf-8"

-- `MIME_TYPES`
abbrev pub mime_types : List (String × String)
mime_types =
    List.◌∷◌ (".html", "text/html; charset=utf-8")
      (List.◌∷◌ (".css", "text/css; charset=utf-8")
        (List.◌∷◌ (".js", "text/javascript; charset=utf-8")
          (List.◌∷◌ (".mjs", "text/javascript; charset=utf-8")
            (List.◌∷◌ (".json", "application/json; charset=utf-8")
              (List.◌∷◌ (".png", "image/png")
                (List.◌∷◌ (".jpg", "image/jpeg")
                  (List.◌∷◌ (".jpeg", "image/jpeg")
                    (List.◌∷◌ (".gif", "image/gif")
                      (List.◌∷◌ (".svg", "image/svg+xml")
                        (List.◌∷◌ (".ico", "image/x-icon")
                          (List.◌∷◌ (".woff", "font/woff")
                            (List.◌∷◌ (".woff2", "font/woff2")
                              (List.◌∷◌ (".ttf", "font/ttf")
                                (List.◌∷◌ (".webp", "image/webp")
                                  (List.◌∷◌ (".wasm", "application/wasm") List.[])))))))))))))))

abbrev pub type_in : List (String × String) → String → String
type_in List.[] ext = "application/octet-stream"
type_in (List.◌∷◌ (e, t) ts) ext = if e == ext then t else type_in ts ext

-- `MIME_TYPES[ext] || "application/octet-stream"`
unfoldable pub content_type_of : String → String
content_type_of ext = type_in mime_types ext

-- `path.replace(/^\/+/, "")`
abbrev pub drop_slashes : String → String
drop_slashes [] = ""
drop_slashes (c ∷ s) = let rest = drop_slashes s in if nat_eq (code c) b'/' then rest else c ∷ s

abbrev pub ends_with : String → String → Bool
ends_with suffix [] = suffix == ""
ends_with suffix (c ∷ s) = ((c ∷ s) == suffix) || ends_with suffix s

module _ (fs : Files) where
  abbrev pub index_page : String
  index_page = fs.join fs.public_dir "index.html"

  abbrev pub requested : String → String
  requested pathname =
      fs.join fs.public_dir (if pathname == "/" then "index.html" else drop_slashes pathname)

  -- The file for a path, `none` where the answer is 404.
  unfoldable pub resolve : String → Option String
  resolve pathname =
      let path = requested pathname in
      if is_empty (fs.extname path)
      then some (
          if fs.exists_sync (path ⊕ ".html")
          then path ⊕ ".html"
          else if fs.exists_sync (fs.join path "index.html")
          then fs.join path "index.html"
          else index_page)
      else if not (fs.exists_sync path)
      then (if ends_with ".html" pathname || not (includes b'.' pathname)
          then some index_page
          else none)
      else some path

  unfoldable pub send_file : {N : Type 0} → String → String → Response N
  send_file method path = elim (fs.read_file path) [
    | thrown e ↦ record {
      status = 500;
      content_type = text_type;
      body = plain ("Server Error: " ⊕ e);
    }
    | ok size ↦ record {
      status = 200;
      content_type = content_type_of (fs.to_lower (fs.extname path));
      body = if method == "HEAD" then length_only size else file path;
    }
  ]

  unfoldable pub static_file : {N : Type 0} → Request → Response N
  static_file req = elim (resolve req.pathname) [
    | none ↦ record {
      status = 404;
      content_type = text_type;
      body = plain ("404 Not Found: " ⊕ req.pathname);
    }
    | some path ↦ send_file req.method path
  ]
