-- ===== src/Billing/Keys.antt =====
-- The API keys of an organization: billing-service/auth.go and billing-service/api_keys.go, and
-- their routes in billing-service/main.go. The tables are state; the rows stand in the order in
-- which a query meets them, with a new row last. A goroutine that is started is a name in `touches`,
-- and what it does, `touch`, is a step of its own.
pub mod Format
pub mod Api
pub mod Sound
pub mod Revoke
pub mod Issue
pub mod Found
pub mod Lasting
pub mod RoundTrip
pub mod Answers
pub mod Tenants
pub mod Demo
pub mod Listing
use temporal_cloud_offering.Prelude.{
  ℕ, zero, suc, ◌+◌, Bool, true, false, not, ◌&&◌, ◌||◌, List, [], ◌∷◌, ◌++◌, Option, none, some,
  ltb, if◌then◌else◌,
}
use temporal_cloud_offering.Text.{Text, codes, ◌==◌, strip_prefix, non_empty, or_else}
use temporal_cloud_offering.Text.Split.{split}
use temporal_cloud_offering.Text.Hex.{to_hex}
use temporal_cloud_offering.Proxy.{lower}

-- The machine and the libraries. A call has a number; `fault` says whether the database fails at
-- it, which includes a value that its column refuses. Times are in nanoseconds; `stored` is what a
-- column of times gives back. `enable_auth` is `ENABLE_AUTH`. `add_duration` is `time.ParseDuration` and `Add`.
pub record Host : Type 0 where
  pub fault : ℕ → Bool
  pub clock : ℕ → ℕ
  pub stored : ℕ → ℕ
  pub random : ℕ → Option (List ℕ)
  pub new_uuid : ℕ → Text
  pub parse_uuid : Text → Option Text
  pub sha256 : Text → List ℕ
  pub add_duration : Text → ℕ → Option ℕ
  pub enable_auth : Text

pub record ApiKey : Type 0 where
  pub id : Text
  pub organization_id : Text
  pub name : Text
  pub key_prefix : Text
  pub key_hash : Text
  pub scopes : List Text
  pub expires_at : Option ℕ
  pub last_used_at : Option ℕ
  pub created_at : ℕ

pub record Organization : Type 0 where
  pub id : Text
  pub name : Text
  pub slug : Text

pub record Tables : Type 0 where
  pub calls : ℕ
  pub organizations : List Organization
  pub api_keys : List ApiKey
  pub touches : List Text

-- The headers that the middleware reads; a header that is missing is empty.
pub record Headers : Type 0 where
  pub authorization : Text
  pub x_api_key : Text

abbrev pub called : Tables → Tables
called w = record w { calls = suc w.calls }

module _ {ℓ} {A : Type ℓ} where
  abbrev pub take : ℕ → List A → List A
  take zero xs = []
  take (suc n) [] = []
  take (suc n) (x ∷ xs) = x ∷ take n xs

  abbrev pub drop : ℕ → List A → List A
  drop zero xs = xs
  drop (suc n) [] = []
  drop (suc n) (x ∷ xs) = drop n xs

  abbrev pub exists : (A → Bool) → List A → Bool
  exists test [] = false
  exists test (x ∷ xs) = test x || exists test xs

-- The third of the parts of a key.
abbrev pub prefix_part : List Text → Option Text
prefix_part (scheme ∷ mode ∷ prefix ∷ secret ∷ parts) =
    if scheme == codes "tc" then some prefix else none
prefix_part _ = none

unfoldable pub key_prefix_of : Text → Option Text
unfolding split
key_prefix_of key = prefix_part (split key (codes "_"))

-- `expiresAt != nil && expiresAt.Before(now)`
abbrev pub expired : Option ℕ → ℕ → Bool
expired none now = false
expired (some t) now = ltb t now

abbrev pub is_public : Text → Bool
is_public path =
    path == codes "/health" || path == codes "/metrics" || path == codes "/webhooks/stripe"

-- Whether the middleware is used: `strings.EqualFold(enableAuth, "true")`, or nothing is set.
unfoldable pub auth_enabled : Text → Bool
unfolding lower
auth_enabled enable_auth = not (non_empty enable_auth) || lower enable_auth == codes "true"

-- The key in a header: what is behind `Bearer `, or all of it.
abbrev pub or_raw : Text → Option Text → Text
or_raw header none = header
or_raw header (some key) = key

unfoldable pub bearer : Text → Text
unfolding strip_prefix
bearer header = or_raw header (strip_prefix (codes "Bearer ") header)

-- The first row with a prefix and a hash.
unfoldable pub find_key : Text → Text → List ApiKey → Option ApiKey
find_key prefix hash [] = none
find_key prefix hash (row ∷ rows) =
    let found = find_key prefix hash rows in
    if row.key_prefix == prefix && row.key_hash == hash then some row else found

-- What the middleware does: calls the next handler, with the organization of the key but on a
-- public path, or answers with 401.
pub data Passage : Type 0 where
  next : Option Text → Passage
  unauthorized : Text → Passage

abbrev pub admitted : Option Text → Passage
admitted none = unauthorized (codes "invalid API key")
admitted (some organization) = next (some organization)

abbrev pub touch_rows : Text → ℕ → List ApiKey → List ApiKey
touch_rows prefix now [] = []
touch_rows prefix now (row ∷ rows) =
    (if row.key_prefix == prefix then record row { last_used_at = some now } else row)
    ∷ touch_rows prefix now rows

module _ (h : Host) where
  unfoldable pub hash_api_key : Text → Text
  hash_api_key key = to_hex (h.sha256 key)

  -- The row that the query found: its organization, where the key has not expired.
  abbrev pub accept_row : Text → Option ApiKey → Tables → Option Text × Tables
  accept_row prefix none w = (none, w)
  accept_row prefix (some row) w =
      if expired row.expires_at (h.clock w.calls)
      then (none, w)
      else (some row.organization_id, record w { touches = prefix ∷ w.touches })

  -- The organization of a key; `none` is any error.
  unfoldable pub validate_api_key : Text → Tables → Option Text × Tables
  unfolding key_prefix_of find_key hash_api_key
  validate_api_key key w = elim (key_prefix_of key) [
    | none ↦ (none, w)
    | some prefix ↦
        if h.fault w.calls
        then (none, called w)
        else accept_row prefix (find_key prefix (hash_api_key key) w.api_keys) (called w)
  ]

  -- The middleware, of the path and the headers of a request.
  unfoldable pub authenticate : Text → Headers → Tables → Passage × Tables
  unfolding bearer validate_api_key
  authenticate path headers w =
      let header = or_else headers.authorization headers.x_api_key in
      let (organization, w') = validate_api_key (bearer header) w in
      if is_public path
      then (next none, w)
      else if not (non_empty header)
      then (unauthorized (codes "missing API key"), w)
      else (admitted organization, w')

  -- The goroutine: the last use of all the keys with a prefix.
  unfoldable pub touch : Text → Tables → Tables
  touch prefix w = if h.fault w.calls then called w else record (called w) {
    api_keys = touch_rows prefix (h.stored (h.clock w.calls)) w.api_keys;
  }
