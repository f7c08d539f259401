-- ===== src/Session/Runtime.antt =====
-- What the session uses of the browser, and what the browser documents: `document.cookie` prints
-- the cookies as `name=value` with `; ` between them, a cookie whose date has passed is removed, and
-- `localStorage` keeps what was written, and the empty string is no JSON.
use temporal_cloud_offering.Prelude.{
  ◌≡◌, ◌≢◌, List, [], ◌∷◌, ◌++◌, Option, none, some, All, if◌then◌else◌,
}
use temporal_cloud_offering.Text.{Text, codes, remove, ◌==◌}
use temporal_cloud_offering.Json.Doc.{Doc, malformed}

pub record Browser : Type 1 where
  pub State : Type 0
  -- `document.cookie`, read and written
  pub cookie : State → Text
  pub set_cookie : Text → State → State
  -- `localStorage`; `none` of `set_item` is an exception
  pub get_item : Text → State → Option Doc
  pub set_item : Text → Doc → State → Option State
  pub remove_item : Text → State → State
  -- a string, as `JSON.parse` sees it
  pub read : Text → Doc

-- A name holds neither `;` nor `=`, a value no `;`.
abbrev pub IsName : Text → Type 0
IsName name = All (λ c. (c ≢ b';') × (c ≢ b'=')) name

abbrev pub IsValue : Text → Type 0
IsValue value = All (λ c. c ≢ b';') value

abbrev pub IsJar : List (Text × Text) → Type 0
IsJar cookies = All (λ p. IsName p.0 × IsValue p.1) cookies

-- `; name=value` for each cookie.
abbrev pub cookie_entries : List (Text × Text) → Text
cookie_entries [] = []
cookie_entries ((name, value) ∷ cookies) =
    codes "; " ++ (name ++ (b'=' ∷ (value ++ cookie_entries cookies)))

-- `document.cookie` of a list of cookies.
abbrev pub cookie_text : List (Text × Text) → Text
cookie_text [] = []
cookie_text ((name, value) ∷ cookies) = name ++ (b'=' ∷ (value ++ cookie_entries cookies))

-- A browser whose cookies have the path `/`.
pub record BrowserLaws (b : Browser) : Type 0 where
  pub cookies : b.State → List (Text × Text)
  pub cookies-IsJar : (s : b.State) → IsJar (cookies s)
  pub cookie-text : (s : b.State) → b.cookie s ≡ cookie_text (cookies s)
  pub cookies-expire :
      (name : Text) (s : b.State)
      → IsName name
      → cookies (b.set_cookie (name ++ codes "=; path=/; expires=Thu, 01 Jan 1970 00:00:00 GMT") s)
        ≡ remove name (cookies s)
  pub get-set_item :
      (key other : Text) (value : Doc) (s s' : b.State)
      → b.set_item key value s ≡ some s'
      → b.get_item other s' ≡ (if key == other then some value else b.get_item other s)
  pub get-remove_item :
      (key other : Text) (s : b.State)
      → b.get_item other (b.remove_item key s) ≡ (if key == other then none else b.get_item other s)
  pub read-empty : b.read [] ≡ malformed []
  pub get-set_cookie :
      (text other : Text) (s : b.State)
      → b.get_item other (b.set_cookie text s) ≡ b.get_item other s
