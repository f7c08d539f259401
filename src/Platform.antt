-- ===== src/Platform.antt =====
-- What the program calls and does not implement: the KV namespace and the rest of the Cloudflare
-- runtime (`platform.env.KV` in marketing-site/src/app.d.ts), the clock, random bytes, SHA-256 and `fetch`.
-- An instance of `Platform` stands for one such runtime; `KvLaws` states what its KV documents.
-- Each call of the runtime takes the next number, at which the clock is read and a call may fail.
pub mod Exec
pub mod Memory
use temporal_cloud_offering.Prelude.{
  ℕ, suc, ◌+◌, ◌*◌, ◌≤◌, ◌<◌, ◌≡◌, ◌≢◌, Bool, Option, none, some, List,
}
use temporal_cloud_offering.Text.{Text}
use temporal_cloud_offering.Json.{Json}
use temporal_cloud_offering.Json.Doc.{Doc}

-- An outgoing request: its body is what the program passes as `body`.
pub record Request : Type 0 where
  pub url : Text
  pub method : Text
  pub headers : List (Text × Text)
  pub body : List (Text × Json)

pub record Reply : Type 0 where
  pub ok : Bool
  pub json : Doc

pub record Platform : Type 1 where
  pub Store : Type 0
  -- `KV.get`, `KV.put` with its time to live in seconds, `KV.delete`, at a time in milliseconds
  pub get : ℕ → Text → Store → Option Doc
  pub put : ℕ → Text → Doc → Option ℕ → Store → Store
  pub delete : ℕ → Text → Store → Store
  pub clock : ℕ → ℕ
  -- `new Date().getFullYear()` at a time
  pub year : ℕ → ℕ
  -- whether the call of that number rejects
  pub fault : ℕ → Bool
  -- the 32 bytes of `crypto.getRandomValues`
  pub random : ℕ → List ℕ
  pub sha256 : List ℕ → List ℕ
  -- whether a string, read as a number, is below a number
  pub text_below : Text → ℕ → Bool
  pub fetch : ℕ → Request → Reply

-- The documented behaviour of one KV namespace, as one location sees its own writes.
pub record KvLaws (p : Platform) : Type 0 where
  pub get-put :
      (t now : ℕ) (k : Text) (v : Doc) (ttl : ℕ) (s : p.Store)
      → t ≤ now
      → now < t + ttl * 1000
      → p.get now k (p.put t k v (some ttl) s) ≡ some v
  pub get-put_forever :
      (t now : ℕ) (k : Text) (v : Doc) (s : p.Store)
      → t ≤ now
      → p.get now k (p.put t k v none s) ≡ some v
  pub get-put_ne :
      (t now : ℕ) (k j : Text) (v : Doc) (ttl : Option ℕ) (s : p.Store)
      → k ≢ j
      → p.get now j (p.put t k v ttl s) ≡ p.get now j s
  pub get-delete : (t now : ℕ) (k : Text) (s : p.Store) → p.get now k (p.delete t k s) ≡ none
  pub get-delete_ne :
      (t now : ℕ) (k j : Text) (s : p.Store) → k ≢ j → p.get now j (p.delete t k s) ≡ p.get now j s
