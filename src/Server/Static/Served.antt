-- ===== src/Server/Static/Served.antt =====
-- Which file is served for a path.
use hikari.Prelude.{◌≡◌, ◌⊎◌, inl, inr, refl, true, false, not, ◌||◌, none, some, Bool-cases}
use hikari.Prelude.Text.{String, is_empty, includes, ◌⊕◌}
use hikari.Server.Static.{Files, index_page, requested, resolve, ends_with}

module _ (fs : Files) where
  -- A path is resolved to a file that exists or to the index page; where it is not, the file that it
  -- names has an extension and does not exist.
  pub resolve-cases :
      (pathname : String)
      → ((path : String) × (resolve fs pathname ≡ some path)
          × ((fs.exists_sync path ≡ true) ⊎ (path ≡ index_page fs)))
        ⊎ ((resolve fs pathname ≡ none)
            × (fs.exists_sync (requested fs pathname) ≡ false)
            × (is_empty (fs.extname (requested fs pathname)) ≡ false))
  unfolding resolve
  resolve-cases pathname =
      let path = requested fs pathname in
      elim (Bool-cases (is_empty (fs.extname path))) [
        | inl bare ↦ elim (Bool-cases (fs.exists_sync (path ⊕ ".html"))) [
          | inl page ↦ inl (path ⊕ ".html", rw (bare, page), inl page)
          | inr no_page ↦ elim (Bool-cases (fs.exists_sync (fs.join path "index.html"))) [
            | inl inner ↦ inl (fs.join path "index.html", rw (bare, no_page, inner), inl inner)
            | inr no_inner ↦ inl (index_page fs, rw (bare, no_page, no_inner), inr refl)
          ]
        ]
        | inr named ↦ elim (Bool-cases (fs.exists_sync path)) [
          | inl there ↦ inl (path, rw (named, there), inl there)
          | inr missing ↦
              elim (Bool-cases (ends_with ".html" pathname || not (includes b'.' pathname))) [
                | inl page ↦ inl (index_page fs, rw (named, missing, page), inr refl)
                | inr other ↦ inr (rw (named, missing, other), missing, named)
              ]
        ]
      ]
