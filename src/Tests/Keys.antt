-- ===== src/Tests/Keys.antt =====
-- Two organizations and their keys, and an organization that is not there.
use temporal_cloud_offering.Prelude.{
  ltb, if◌then◌else◌, ◌≤◌, ℕ, true, ◌≡◌, refl, subst, ◌≢◌, inl, false, List, [], ◌∷◌, ◌++◌, Option,
  none, some, All, arith,
}
use temporal_cloud_offering.Text.{Text, codes, ◌==◌, cut, strip_prefix}
use temporal_cloud_offering.Text.Hex.{to_hex, hex_digit}
use temporal_cloud_offering.Text.Split.{split, split_within}
use temporal_cloud_offering.Text.Hex.Laws.{IsByte}
use temporal_cloud_offering.Billing.Keys.{
  Host, ApiKey, Tables, exists, Headers, next, unauthorized, called, hash_api_key, is_public,
  auth_enabled, authenticate, validate_api_key, key_prefix_of, find_key, bearer,
}
use temporal_cloud_offering.Billing.Keys.Api.{
  CreateApiKeyRequest, created, no_content, full_key, new_key, insert_key, ensure_organization,
  create_api_key, delete_api_key, create, list, delete, path_of, serve, expiry,
}
use temporal_cloud_offering.Billing.Keys.Sound.{shown_key, Decides, authenticate-Decides}
use temporal_cloud_offering.Billing.Keys.Revoke.{OnlyRow, delete_revokes}
use temporal_cloud_offering.Billing.Keys.Issue.{IsIssued}
use temporal_cloud_offering.Billing.Keys.Lasting.{Event, Spares, used, requested, run_events}
use temporal_cloud_offering.Billing.Keys.RoundTrip.{key_lasts}
use temporal_cloud_offering.Billing.Keys.Answers.{Outcome, create_api_key-Outcome}
use temporal_cloud_offering.Billing.Keys.Tenants.{knows, cross_tenant}
use temporal_cloud_offering.Billing.Keys.Demo.{one_demo_organization}
use temporal_cloud_offering.Tests.{no_fault, bytes}

abbrev host : Host
host = record {
  fault = no_fault;
  clock = λ i. i;
  stored = λ t. t;
  random = λ i. some (bytes i);
  new_uuid = λ i. b'k' ∷ i ∷ [];
  parse_uuid = λ t. some t;
  sha256 = λ t. t;
  add_duration = λ t now. none;
  enable_auth = [];
}

abbrev acme : Text
acme = codes "acme"

abbrev other : Text
other = codes "other"

abbrev api : Text
api = codes "/api/v1/organizations"

abbrev two_organizations : Tables
two_organizations = record {
  calls = 0;
  organizations =
      record { id = acme; name = acme; slug = acme }
      ∷ record { id = other; name = other; slug = other }
      ∷ [];
  api_keys = [];
  touches = [];
}

abbrev request : CreateApiKeyRequest
request = record { name = codes "ci"; scopes = []; expires_in = [] }

abbrev key : Text
key = full_key (bytes 0)

abbrev key_of : Text → Tables → ApiKey
key_of organization w =
    new_key host (bytes 0) organization (codes "ci") (codes "read" ∷ codes "write" ∷ []) none
      w.calls

abbrev with_key : Text → Tables → Tables
with_key organization w =
    (insert_key host (key_of organization w) (ensure_organization host organization (called w))).1

made_for_acme :
    create_api_key host acme (some request) two_organizations
    ≡ (created key (key_of acme two_organizations), with_key acme two_organizations)
unfolding create_api_key ◌==◌
made_for_acme = refl

-- The key is shown in each of the three ways, between other requests and a goroutine.
abbrev with_bearer : Headers
with_bearer = record { authorization = codes "Bearer " ++ key; x_api_key = [] }

abbrev key_of_prefix : Text
key_of_prefix = codes "070f10ff"

abbrev events : List Event
events =
    used (key_of_prefix)
    ∷ requested with_bearer (list acme)
    ∷ requested with_bearer (delete (codes "k9"))
    ∷ requested (record { authorization = []; x_api_key = [] }) (create other (some request))
    ∷ []

abbrev or_none : Option (List ℕ) → List ℕ
or_none none = []
or_none (some bs) = bs

bytes-IsByte : (i : ℕ) (bs : List ℕ) → host.random i ≡ some bs → All IsByte bs
bytes-IsByte i bs e = subst (λ o. All IsByte (or_none o)) e (omega arith)

api_closed : is_public api ≡ false
unfolding ◌==◌
api_closed = refl

spared : All (Spares host (key_of acme two_organizations).id) events
unfolding new_key
spared = (tt, (tt, ((λ e. ground arith), (tt, tt))))

key_lasts_example :
    (authenticate host api with_bearer (run_events host events (with_key acme two_organizations))).0
    ≡ next (some acme)
unfolding new_key
key_lasts_example =
    key_lasts host acme api key (some request) with_bearer two_organizations
      (with_key acme two_organizations) (key_of acme two_organizations) events bytes-IsByte tt
      made_for_acme spared (inl refl) api_closed refl refl

authenticate-Decides_example :
    Decides host api with_bearer
      (with_key acme two_organizations)
      (authenticate host api with_bearer (with_key acme two_organizations))
authenticate-Decides_example =
    authenticate-Decides host api with_bearer (with_key acme two_organizations)

-- A host that has no more random numbers.
abbrev drained : Host
drained = record host { random = λ i. if ltb i 1 then some (bytes i) else none }

only_row :
    All
      (OnlyRow (key_of acme two_organizations).id (hash_api_key drained (shown_key with_bearer)))
      (with_key acme two_organizations).api_keys
unfolding insert_key ensure_organization new_key ◌==◌
only_row = (inl refl, tt)

abbrev without_keys : Tables
without_keys = record (called (with_key acme two_organizations)) { api_keys = [] }

drained_deletes :
    delete_api_key drained (key_of acme two_organizations).id (with_key acme two_organizations)
    ≡ (no_content, without_keys)
unfolding delete_api_key insert_key ensure_organization new_key ◌==◌
drained_deletes = refl

drained_fresh :
    (i : ℕ) (bs : List ℕ)
    → without_keys.calls ≤ i
    → drained.random i ≡ some bs
    → hash_api_key drained (full_key bs) ≢ hash_api_key drained (shown_key with_bearer)
unfolding insert_key ensure_organization new_key ◌==◌
drained_fresh i bs late e = absurd (ground arith)

delete_revokes_example :
    (message : Text) × ((authenticate drained api with_bearer
        (run_events drained events without_keys)).0
      ≡ unauthorized message)
delete_revokes_example =
    delete_revokes drained (key_of acme two_organizations).id (key_of acme two_organizations).id api
      with_bearer (with_key acme two_organizations) without_keys events refl drained_deletes
      only_row drained_fresh api_closed

create_api_key-Outcome_example :
    Outcome host acme
      (some request)
      two_organizations
      (create_api_key host acme (some request) two_organizations)
create_api_key-Outcome_example = create_api_key-Outcome host acme (some request) two_organizations

-- A request with a key of the first organization, for a key of the second.
abbrev known_key : Tables
known_key = with_key acme two_organizations

abbrev passed_on : Tables
passed_on = record (called known_key) { touches = key_of_prefix ∷ [] }

passes :
    authenticate host (path_of (create other (some request))) with_bearer known_key
    ≡ (next (some acme), passed_on)
unfolding authenticate validate_api_key key_prefix_of find_key split split_within cut strip_prefix
    bearer new_key insert_key ensure_organization full_key hash_api_key to_hex hex_digit ◌==◌
passes = refl

other_known : knows other passed_on ≡ true
unfolding insert_key ensure_organization ◌==◌ new_key
other_known = refl

new_id : exists (λ k. k.id == host.new_uuid passed_on.calls) passed_on.api_keys ≡ false
unfolding insert_key ensure_organization new_key ◌==◌
new_id = refl

enabled : auth_enabled host.enable_auth ≡ true
unfolding auth_enabled
enabled = refl

cross_tenant_example :
    (k : Text) × (row : ApiKey) × (v : Tables) × ((serve host with_bearer
          (create other (some request))
          known_key
        ≡ (created k row, v))
      × (row.organization_id ≡ other)
      × IsIssued host other passed_on k row v)
unfolding expiry
cross_tenant_example =
    cross_tenant host with_bearer other acme other request known_key passed_on none
      (bytes passed_on.calls) enabled passes refl refl refl refl other_known refl new_id

-- Two organizations that have no row, one after the other.
abbrev nobody : Tables
nobody = record { calls = 0; organizations = []; api_keys = []; touches = [] }

first_made :
    create_api_key host acme (some request) nobody
    ≡ (created key (key_of acme nobody), with_key acme nobody)
unfolding create_api_key ◌==◌
first_made = refl

other_absent : knows other (with_key acme nobody) ≡ false
unfolding insert_key ensure_organization ◌==◌ new_key
other_absent = refl

one_demo_organization_example :
    (create_api_key host other (some request) (run_events host events (with_key acme nobody))).0
    ≢ created key (key_of other nobody)
one_demo_organization_example =
    one_demo_organization host acme other key key (some request) (some request) nobody
      (with_key acme nobody) (key_of acme nobody) (key_of other nobody) other events first_made refl
      refl other_absent
