-- ===== src/Tests.antt =====
-- Test data: a runtime whose KV is in memory, a configured environment, and requests.
mod Signup
mod Demo
mod Verify
mod Login
mod Password
mod Proxies
mod Links
mod Session
mod Visits
mod Billing
mod Keys
mod BillingLinks
mod Subscription
mod Organizations
mod Collector
use temporal_cloud_offering.Prelude.{ℕ, Bool, true, false, List, [], ◌∷◌, Option, none, some}
use temporal_cloud_offering.Text.{Text, codes}
use temporal_cloud_offering.Json.{Json, str, null}
use temporal_cloud_offering.Json.Doc.{Doc, printed}
use temporal_cloud_offering.Platform.{Platform, KvLaws, Request, Reply}
use temporal_cloud_offering.Platform.Exec.{World}
use temporal_cloud_offering.Platform.Memory.{Entries, memory, memory_laws}
use temporal_cloud_offering.Auth.{Env}

abbrev pub ticks : ℕ → ℕ
ticks i = i

abbrev pub no_fault : ℕ → Bool
no_fault i = false

-- 32 bytes
abbrev pub bytes : ℕ → List ℕ
bytes i =
    7 ∷ 15 ∷ 16 ∷ 255 ∷ 7 ∷ 15 ∷ 16 ∷ 255 ∷ 7 ∷ 15 ∷ 16 ∷ 255 ∷ 7 ∷ 15 ∷ 16 ∷ 255 ∷ 7 ∷ 15 ∷ 16
    ∷ 255 ∷ 7 ∷ 15 ∷ 16 ∷ 255 ∷ 7 ∷ 15 ∷ 16 ∷ 255 ∷ 7 ∷ 15 ∷ 16 ∷ 255 ∷ []

abbrev pub same_bytes : List ℕ → List ℕ
same_bytes bs = bs

abbrev pub accepts : ℕ → Request → Reply
accepts i r = record { ok = true; json = printed null }

abbrev pub runtime : Platform
runtime = memory ticks no_fault bytes same_bytes accepts

pub runtime_laws : KvLaws runtime
runtime_laws = memory_laws ticks no_fault bytes same_bytes accepts

abbrev pub env : Env
env = record {
  kv = true;
  resend_api_key = codes "key";
  google_client_id = codes "id";
  google_client_secret = codes "secret";
  google_redirect_uri = [];
}

abbrev pub site : Text
site = codes "https://site"

abbrev pub ann : Text
ann = codes "a@b"

abbrev pub secret : Text
secret = codes "12345678"

abbrev pub start : Entries → World Entries
start s = record { store = s; calls = 0; jar = []; set_cookies = []; sent = [] }
