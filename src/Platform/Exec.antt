-- ===== src/Platform/Exec.antt =====
-- A request handler of the site: state, exceptions, and SvelteKit's `redirect`, which is thrown.
-- What was done before an exception stays done, so the state comes back beside it.
use temporal_cloud_offering.Prelude.{
  ◌≡◌, refl, ◌⊎◌, inl, inr, ℕ, suc, Bool, Option, List, ◌∷◌, if◌then◌else◌,
}
use temporal_cloud_offering.Text.{Text, lookup}
use temporal_cloud_offering.Json.{Json, Try, fine, type_error}
use temporal_cloud_offering.Json.Doc
use temporal_cloud_offering.Json.Doc.{Doc}
use temporal_cloud_offering.Platform.{Platform, Request, Reply}

-- The options of `cookies.set`.
pub record Cookie : Type 0 where
  pub name : Text
  pub value : Doc
  pub path : Text
  pub http_only : Bool
  pub secure : Bool
  pub same_site : Text
  pub max_age : ℕ

-- The KV store, the number of the next call of the runtime, the request's cookies, the cookies
-- that the response sets, newest first, and the requests sent, newest first.
pub record World (S : Type 0) : Type 0 where
  pub store : S
  pub calls : ℕ
  pub jar : List (Text × Doc)
  pub set_cookies : List Cookie
  pub sent : List Request

pub data Exn : Type 0 where
  failure : Exn
  redirect : Text → Exn

pub data Outcome (A : Type 0) : Type 0 where
  done : A → Outcome A
  thrown : Exn → Outcome A

abbrev pub Exec : Type 0 → Type 0 → Type 0
Exec S A = World S → Outcome A × World S

module _ {S A : Type 0} where
  abbrev pub pure : A → Exec S A
  pure a w = (done a, w)

  abbrev pub throw : Exn → Exec S A
  throw e w = (thrown e, w)

  -- An expression that throws a TypeError.
  abbrev pub attempt : Try A → Exec S A
  attempt (fine a) w = (done a, w)
  attempt type_error w = (thrown failure, w)

  abbrev recover : (Exn → Exec S A) → Outcome A × World S → Outcome A × World S
  recover handler (done a, w) = (done a, w)
  recover handler (thrown e, w) = handler e w

  -- `try { … } catch (e) { … }`
  abbrev pub catch : Exec S A → (Exn → Exec S A) → Exec S A
  catch m handler w = recover handler (m w)

-- A run is answered, or throws.
pub Outcome-cases :
    {S A : Type 0} (o : Outcome A × World S)
    → ((a : A) × (w : World S) × (o ≡ (done a, w)))
      ⊎ ((e : Exn) × (w : World S) × (o ≡ (thrown e, w)))
Outcome-cases (done a, w) = inl (a, w, refl)
Outcome-cases (thrown e, w) = inr (e, w, refl)

module _ {S A B : Type 0} where
  abbrev continue : (A → Exec S B) → Outcome A × World S → Outcome B × World S
  continue f (done a, w) = f a w
  continue f (thrown e, w) = (thrown e, w)

  infixl 5 ◌>>=◌ ◌>>◌
  abbrev pub ◌>>=◌ : Exec S A → (A → Exec S B) → Exec S B
  ◌>>=◌ m f w = continue f (m w)

  abbrev pub ◌>>◌ : Exec S A → Exec S B → Exec S B
  m >> n = m >>= λ _. n

module _ (p : Platform) where
  -- One call of the runtime: it rejects, or it runs at the time of its number.
  abbrev call : {A : Type 0} → (ℕ → p.Store → A × p.Store) → Exec p.Store A
  call run w = if p.fault w.calls then (thrown failure, record w { calls = suc w.calls }) else (
    done (run (p.clock w.calls) w.store).0,
    record w { calls = suc w.calls; store = (run (p.clock w.calls) w.store).1 },
  )

  -- `await env.KV.get(key)`: `none` is `null`
  unfoldable pub kv_get : Text → Exec p.Store (Option Doc)
  kv_get key = call λ now s. (p.get now key s, s)

  -- `await env.KV.put(key, value, { expirationTtl })`
  unfoldable pub kv_put : Text → Doc → Option ℕ → Exec p.Store (Unit {0})
  kv_put key value ttl = call λ now s. (tt, p.put now key value ttl s)

  -- `await env.KV.delete(key)`
  unfoldable pub kv_delete : Text → Exec p.Store (Unit {0})
  kv_delete key = call λ now s. (tt, p.delete now key s)

  -- `Date.now()`, which does not fail
  unfoldable pub date_now : Exec p.Store ℕ
  date_now w = (done (p.clock w.calls), record w { calls = suc w.calls })

  -- `crypto.getRandomValues(new Uint8Array(32))`
  unfoldable pub random_bytes : Exec p.Store (List ℕ)
  random_bytes w = (done (p.random w.calls), record w { calls = suc w.calls })

  -- `await fetch(…)`, which rejects where the network fails
  unfoldable pub fetch : Request → Exec p.Store Reply
  fetch request w =
      if p.fault w.calls then (thrown failure, record w { calls = suc w.calls }) else (
        done (p.fetch w.calls request),
        record w { calls = suc w.calls; sent = request ∷ w.sent },
      )

  -- `await response.text()`, whose result is only logged
  unfoldable pub read_text : Exec p.Store (Unit {0})
  read_text = call λ now s. (tt, s)

  -- `await response.json()`
  unfoldable pub read_json : Reply → Exec p.Store Json
  unfolding read_text
  read_json reply = do read_text; attempt (Doc.parse reply.json)

  -- `cookies.get(name)`
  unfoldable pub get_cookie : Text → Exec p.Store (Option Doc)
  get_cookie name w = (done (lookup name w.jar), w)

  -- `cookies.set(name, value, options)`; a later `cookies.get` sees it
  unfoldable pub set_cookie : Cookie → Exec p.Store (Unit {0})
  set_cookie c w =
      (done tt, record w { jar = (c.name, c.value) ∷ w.jar; set_cookies = c ∷ w.set_cookies })
