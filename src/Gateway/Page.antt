-- ===== src/Gateway/Page.antt =====
-- The HTTP server of web/server.js, which gives out one page.
use linux_veda_4sensor_tcp_c.Prelude.{
  ℕ, ◌≡◌, refl, if◌then◌else◌, Bool, true, false, not, ◌&&◌, ◌||◌, Bool-cases, inl, inr, Option,
  none, some, List,
}
use linux_veda_4sensor_tcp_c.Process.Text.{bytes_of}
use linux_veda_4sensor_tcp_c.Gateway.Frames.{same_text}

-- A request's method, and its path, if `new URL` does not throw.
pub record Request : Type 0 where
  pub method : List ℕ
  pub pathname : Option (List ℕ)

-- `writeHead` and `end`: the status, whether the two headers of a page are set, and the body.
pub record Response : Type 0 where
  pub code : ℕ
  pub as_page : Bool
  pub body : List ℕ

abbrev plain : ℕ → List ℕ → Response
plain code body = record { code = code; as_page = false; body = body }

abbrev page_or_error : Option (List ℕ) → Response
page_or_error none = plain 500 (bytes_of "Internal server error")
page_or_error (some page) = record { code = 200; as_page = true; body = page }

-- `file` is what `readFile` gives.
abbrev on_path : (file : Option (List ℕ)) → List ℕ → Option (List ℕ) → Response
on_path file method none = plain 400 (bytes_of "Bad request")
on_path file method (some path) =
    if not (same_text method (bytes_of "GET"))
      || (not (same_text path (bytes_of "/")) && not (same_text path (bytes_of "/index.html")))
    then plain 404 (bytes_of "Not found")
    else page_or_error file

unfoldable pub on_request : (file : Option (List ℕ)) → Request → Response
on_request file r = on_path file r.method r.pathname

-- Nothing of the file is given out but for a GET of its two paths.
pub on_request-page :
    (file : Option (List ℕ)) (r : Request) (path : List ℕ)
    → r.pathname ≡ some path
    → (on_request file r).as_page ≡ true
    → (same_text r.method (bytes_of "GET") ≡ true)
      × ((same_text path (bytes_of "/") || same_text path (bytes_of "/index.html")) ≡ true)
unfolding on_request
on_request-page file r path there page =
    let page' : (on_path file r.method (some path)).as_page ≡ true = rw there at page in
    elim (Bool-cases (same_text r.method (bytes_of "GET"))) [
      | inl get ↦ elim (Bool-cases (same_text path (bytes_of "/"))) [
        | inl root ↦ (get, rw root refl)
        | inr other ↦ elim (Bool-cases (same_text path (bytes_of "/index.html"))) [
          | inl index ↦ (get, rw (other, index) refl)
          | inr wrong ↦ let no_page : false ≡ true = rw (get, other, wrong) at page' in cc
        ]
      ]
      | inr wrong ↦ let no_page : false ≡ true = rw wrong at page' in cc
    ]
