-- ===== src/Platform/Memory.antt =====
-- A KV namespace in memory, with expiry: an instance at which the laws of `KvLaws` hold.
use temporal_cloud_offering.Prelude.{
  ℕ, ◌+◌, ◌*◌, ◌/◌, refl, Bool, false, Option, none, some, List, arith, ltb, if◌then◌else◌,
}
use temporal_cloud_offering.Text.{Text, lookup, insert, remove}
use temporal_cloud_offering.Text.Laws.{==_iff, ==_refl, lookup-insert, lookup-remove}
use temporal_cloud_offering.Json.Doc.{Doc}
use temporal_cloud_offering.Platform.{Platform, KvLaws, Reply, Request}

-- A value and the time at which it expires.
abbrev pub Entries : Type 0
Entries = List (Text × (Doc × Option ℕ))

abbrev live : ℕ → Option (Doc × Option ℕ) → Option Doc
live now none = none
live now (some (v, none)) = some v
live now (some (v, some until)) = if ltb now until then some v else none

abbrev deadline : ℕ → Option ℕ → Option ℕ
deadline t none = none
deadline t (some ttl) = some (t + ttl * 1000)

-- The other parts of the runtime are arguments.
module _ (clock : ℕ → ℕ) (fault : ℕ → Bool) (random : ℕ → List ℕ) (sha256 : List ℕ → List ℕ)
    (fetch : ℕ → Request → Reply) where
  abbrev pub memory : Platform
  memory = record {
    Store = Entries;
    get = λ now k s. live now (lookup k s);
    put = λ t k v ttl s. insert k (v, deadline t ttl) s;
    delete = λ t k s. remove k s;
    clock = clock;
    year = λ t. 1970 + t / 31556952000;
    fault = fault;
    random = random;
    sha256 = sha256;
    text_below = λ s n. false;
    fetch = fetch;
  }

  pub memory_laws : KvLaws memory
  memory_laws = record {
    get-put = λ t now k v ttl s le lt. rw (lookup-insert, ==_refl) (ground arith);
    get-put_forever = λ t now k v s le. rw (lookup-insert, ==_refl) refl;
    get-put_ne = λ t now k j v ttl s ne. rw lookup-insert (ground (arith, ==_iff k j));
    get-delete = λ t now k s. rw (lookup-remove, ==_refl) refl;
    get-delete_ne = λ t now k j s ne. rw lookup-remove (ground (arith, ==_iff k j));
  }
