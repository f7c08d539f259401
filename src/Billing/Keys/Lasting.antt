-- ===== src/Billing/Keys/Lasting.antt =====
-- A key goes on working: what requests and goroutines that come later do to the row of a key.
use temporal_cloud_offering.Prelude.{
  ℕ, ◌≡◌, sym, ap, ◌∙◌, ◌≢◌, inl, inr, List, [], ◌∷◌, Option, none, some, arith, All, Bool-cases,
  Option-cases, subst,
}
use temporal_cloud_offering.Text.{Text}
use temporal_cloud_offering.Billing.Keys.{
  Host, Tables, Headers, Passage, next, unauthorized, find_key, touch, authenticate,
}
use temporal_cloud_offering.Billing.Keys.Api.{
  KeyRequest, create, list, delete, path_of, list_api_keys, delete_api_key, handle, pass, serve,
}
use temporal_cloud_offering.Billing.Keys.Sound.{serve-cases, Decides, authenticate-Decides}
use temporal_cloud_offering.Billing.Keys.Issue.{create-Grows}
use temporal_cloud_offering.Billing.Keys.Found.{
  IsFound, find_key-append, find_key-without, touch_rows-IsFound,
}

-- What happens: a goroutine runs, or a request is served.
pub data Event : Type 0 where
  used : Text → Event
  requested : Headers → KeyRequest → Event

module _ (h : Host) where
  abbrev pub perform : Event → Tables → Tables
  perform (used prefix) w = touch h prefix w
  perform (requested headers r) w = (serve h headers r w).1

  abbrev pub run_events : List Event → Tables → Tables
  run_events [] w = w
  run_events (event ∷ events) w = run_events events (perform event w)

  -- An event that does not ask for the row with an id to be deleted.
  abbrev pub Spares : Text → Event → Type 0
  Spares id (requested headers (delete key_id)) = h.parse_uuid key_id ≢ some id
  Spares id _ = Unit

  module _ (prefix hash id organization : Text) (expires : Option ℕ) where
    abbrev Keeps : Tables → Tables → Type 0
    Keeps w v =
        IsFound prefix hash id organization expires w.api_keys
        → IsFound prefix hash id organization expires v.api_keys

    keep : (w v : Tables) → v.api_keys ≡ w.api_keys → Keeps w v
    keep w v same found = subst (IsFound prefix hash id organization expires) (sym same) found

    touch-Keeps : (name : Text) (w : Tables) → Keeps w (touch h name w)
    unfolding touch
    touch-Keeps name w found = elim (Bool-cases (h.fault w.calls)) [
      | inl fails ↦ rw fails found
      | inr works ↦ rw works (
          touch_rows-IsFound prefix hash name id organization (h.stored (h.clock w.calls)) expires
            w.api_keys found)
    ]

    delete-Keeps :
        (key_id : Text) (w : Tables)
        → h.parse_uuid key_id ≢ some id
        → Keeps w (delete_api_key h key_id w).1
    unfolding delete_api_key
    delete-Keeps key_id w spared (row, (found, i, o, x)) =
        elim (Option-cases (h.parse_uuid key_id)) [
          | inl no_id ↦ (row, (ground arith, i, o, x))
          | inr (other, parsed) ↦
              let kept = find_key-without prefix hash other w.api_keys row found (ground arith) in
              (row, (ground arith, i, o, x))
        ]

    handle-Keeps :
        (headers : Headers) (r : KeyRequest) (w : Tables)
        → Spares id (requested headers r)
        → Keeps w (handle h r w).1
    unfolding handle list_api_keys
    handle-Keeps headers (create org_id body) w spared (row, (found, i, o, x)) =
        let (later, rows) = create-Grows h org_id body w in
        (
          row,
          (
            ap (find_key prefix hash) rows ∙ find_key-append prefix hash w.api_keys later row found,
            i,
            o,
            x,
          ),
        )
    handle-Keeps headers (list org_id) w spared found =
        keep w (list_api_keys h org_id w).1 (ground arith) found
    handle-Keeps headers (delete key_id) w spared found = delete-Keeps key_id w spared found

    pass-Keeps :
        (headers : Headers) (r : KeyRequest) (w : Tables) (result : Passage × Tables)
        → Spares id (requested headers r)
        → Decides h (path_of r) headers w result
        → Keeps w (pass h r result).1
    pass-Keeps headers r w (unauthorized message, v) spared (_, same) found = keep w v same found
    pass-Keeps headers r w (next none, v) spared (_, same) found =
        handle-Keeps headers r v spared (keep w v (ap (λ u. u.api_keys) same) found)
    pass-Keeps headers r w (next (some o), v) spared (_, same) found =
        handle-Keeps headers r v spared (keep w v same found)

    perform-Keeps : (event : Event) (w : Tables) → Spares id event → Keeps w (perform event w)
    perform-Keeps (used name) w spared found = touch-Keeps name w found
    perform-Keeps (requested headers r) w spared found =
        let decided = authenticate-Decides h (path_of r) headers w in
        let passed = authenticate h (path_of r) headers w in
        elim (serve-cases h headers r w) [
          | inl behind ↦
              subst (λ result. Keeps w result.1) (sym behind)
                (pass-Keeps headers r w passed spared decided) found
          | inr open_to_all ↦
              subst (λ result. Keeps w result.1) (sym open_to_all) (handle-Keeps headers r w spared)
                found
        ]

    pub run_events-Keeps :
        (events : List Event) (w : Tables) → All (Spares id) events → Keeps w (run_events events w)
    run_events-Keeps [] w spared found = found
    run_events-Keeps (event ∷ events) w (s, spared) found =
        run_events-Keeps events (perform event w) spared (perform-Keeps event w s found)
