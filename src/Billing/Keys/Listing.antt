-- ===== src/Billing/Keys/Listing.antt =====
-- `ListAPIKeys` of billing-service/api_keys.go: whose keys are shown, in which order.
use temporal_cloud_offering.Prelude.{
  ℕ, ◌≤◌, ◌≡◌, refl, inl, inr, List, [], ◌∷◌, leb, All, arith, Bool-cases,
}
use temporal_cloud_offering.Text.{Text, ◌==◌}
use temporal_cloud_offering.Text.Laws.{==_iff}
use temporal_cloud_offering.Billing.Keys.{ApiKey}
use temporal_cloud_offering.Billing.Keys.Api.{insert_newest, newest_of}

-- A row of an organization, without its hash.
abbrev pub IsShown : Text → ApiKey → Type 0
IsShown organization row = (row.organization_id ≡ organization) × (row.key_hash ≡ [])

-- Each row is at least as new as all the rows behind it.
abbrev pub IsNewestFirst : List ApiKey → Type 0
IsNewestFirst [] = Unit
IsNewestFirst (row ∷ rows) = All (λ r. r.created_at ≤ row.created_at) rows × IsNewestFirst rows

insert_newest-All :
    (P : ApiKey → Type 0) (key : ApiKey) (rows : List ApiKey)
    → P key
    → All P rows
    → All P (insert_newest key rows)
insert_newest-All P key [] k h = (k, tt)
insert_newest-All P key (row ∷ rows) k (r, h) =
    elim (Bool-cases (leb row.created_at key.created_at)) [
      | inl older ↦ rw older (k, (r, h))
      | inr newer ↦ rw newer (r, insert_newest-All P key rows k h)
    ]

older_still :
    (a b : ℕ) (rows : List ApiKey)
    → a ≤ b
    → All (λ r. r.created_at ≤ a) rows
    → All (λ r. r.created_at ≤ b) rows
older_still a b [] le h = tt
older_still a b (row ∷ rows) le (r, h) = (omega arith, older_still a b rows le h)

insert_newest-IsNewestFirst :
    (key : ApiKey) (rows : List ApiKey)
    → IsNewestFirst rows
    → IsNewestFirst (insert_newest key rows)
insert_newest-IsNewestFirst key [] h = (tt, tt)
insert_newest-IsNewestFirst key (row ∷ rows) (first, h) =
    elim (Bool-cases (leb row.created_at key.created_at)) [
      | inl older ↦
          let le : row.created_at ≤ key.created_at = ground arith in
          rw older ((le, older_still row.created_at key.created_at rows le first), (first, h))
      | inr newer ↦ rw newer (
        insert_newest-All (λ r. r.created_at ≤ row.created_at) key rows (ground arith) first,
        insert_newest-IsNewestFirst key rows h,
      )
    ]

-- The rows that are listed for an organization are its own, without their hashes, newest first.
newest_of-IsShown :
    (organization : Text) (rows : List ApiKey)
    → All (IsShown organization) (newest_of organization rows)
      × IsNewestFirst (newest_of organization rows)
unfolding newest_of
newest_of-IsShown organization [] = (tt, tt)
newest_of-IsShown organization (row ∷ rows) =
    let (shown, ordered) = newest_of-IsShown organization rows in
    elim (Bool-cases (row.organization_id == organization)) [
      | inr other ↦ rw other (shown, ordered)
      | inl own ↦
          let key = record row { key_hash = [] } in
          rw own (
            insert_newest-All (IsShown organization) key (newest_of organization rows)
                (ground (arith, ==_iff row.organization_id organization), refl) shown,
            insert_newest-IsNewestFirst key (newest_of organization rows) ordered,
          )
    ]
