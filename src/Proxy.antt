-- ===== src/Proxy.antt =====
-- The two proxies in front of the billing backend: the Cloudflare Worker (api-proxy/src/index.ts)
-- and the Pages function (marketing-site/functions/api/[[path]].ts). What they share: requests,
-- replies, and `Headers` as a list of names in lower case.
pub mod Laws
pub mod Worker
pub mod Pages
use temporal_cloud_offering.Prelude.{
  ℕ, ◌+◌, Bool, ◌&&◌, List, [], ◌∷◌, ◌++◌, Option, none, some, leb, if◌then◌else◌,
}
use temporal_cloud_offering.Text.{Text, codes, non_empty, lookup, insert}
use temporal_cloud_offering.Json.{Json, str, literal}

-- What the proxies read of a request: a header that is absent is empty, since the code only tests
-- for truth; the body is what `await request.text()` returns.
pub record Incoming : Type 0 where
  pub method : Text
  pub path : Text
  pub search : Text
  pub content_type : Text
  pub authorization : Text
  pub api_key : Text
  pub body : Text

pub record Outgoing : Type 0 where
  pub url : Text
  pub method : Text
  pub headers : List (Text × Text)
  pub body : Option Text

-- A reply of the backend; its header names are in lower case.
pub record BackendReply : Type 0 where
  pub status : ℕ
  pub status_text : Text
  pub headers : List (Text × Text)
  pub body : Text

-- `await fetch(…)`, which may reject with an error.
pub data Fetched : Type 0 where
  replied : BackendReply → Fetched
  failed : Text → Fetched

-- The body of an answer: none, what the backend sent, or JSON.
pub data Body : Type 0 where
  empty : Body
  relayed : Text → Body
  json : Json → Body

pub record Answer : Type 0 where
  pub status : ℕ
  pub status_text : Text
  pub headers : List (Text × Text)
  pub body : Body

lower_unit : ℕ → ℕ
lower_unit c = if leb b'A' c && leb c b'Z' then c + 32 else c

-- A header's name in lower case.
unfoldable pub lower : Text → Text
unfolding lower_unit
lower [] = []
lower (c ∷ s) = lower_unit c ∷ lower s

-- `headers.set(name, value)`
unfoldable pub set_header : Text → Text → List (Text × Text) → List (Text × Text)
set_header name value headers = insert (lower name) value headers

-- `headers.append(name, value)`: a second value goes behind the first.
unfoldable pub append_header : Text → Text → List (Text × Text) → List (Text × Text)
append_header name value headers = elim (lookup (lower name) headers) [
  | none ↦ insert (lower name) value headers
  | some old ↦ insert (lower name) (old ++ codes ", " ++ value) headers
]

-- `Object.entries(pairs).forEach(([k, v]) => headers.set(k, v))`
unfoldable pub set_headers : List (Text × Text) → List (Text × Text) → List (Text × Text)
set_headers [] headers = headers
set_headers ((k, v) ∷ pairs) headers = set_headers pairs (set_header k v headers)

-- `new Headers(object)`: every property is appended.
unfoldable pub append_headers : List (Text × Text) → List (Text × Text) → List (Text × Text)
append_headers [] headers = headers
append_headers ((k, v) ∷ pairs) headers = append_headers pairs (append_header k v headers)

-- `{ ...object, ...Object.fromEntries(pairs) }`: property names keep their case.
unfoldable pub spread : List (Text × Text) → List (Text × Text) → List (Text × Text)
spread object [] = object
spread object ((k, v) ∷ pairs) = spread (insert k v object) pairs

-- `...(value && { [name]: value })`
abbrev pub optional_header : Text → Text → List (Text × Text)
optional_header name value = if non_empty value then (name, value) ∷ [] else []

abbrev pub cors_headers : List (Text × Text)
cors_headers =
    (codes "Access-Control-Allow-Origin", codes "*")
    ∷ (codes "Access-Control-Allow-Methods", codes "GET, POST, PUT, DELETE, OPTIONS")
    ∷ (codes "Access-Control-Allow-Headers", codes "Content-Type, Authorization, X-API-Key")
    ∷ []

abbrev pub json_type : Text × Text
json_type = (codes "Content-Type", codes "application/json")

abbrev pub error_body : Text → Body
error_body message = json (literal ((codes "error", some (str message)) ∷ []))

abbrev pub unavailable_body : Text → Body
unavailable_body details = json (
    literal (
      (codes "error", some (str (codes "Backend unavailable")))
      ∷ (codes "details", some (str details))
      ∷ []))
