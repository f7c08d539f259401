-- ===== src/Billing/Keys/Found.antt =====
-- The row that a key is found by, and what later calls do to it.
use temporal_cloud_offering.Prelude.{
  ℕ, ◌≡◌, refl, ◌≢◌, inl, inr, ◌&&◌, List, [], ◌∷◌, ◌++◌, Option, some, arith, All, Bool-cases,
}
use temporal_cloud_offering.Text.{Text, ◌==◌}
use temporal_cloud_offering.Text.Laws.{==_iff}
use temporal_cloud_offering.Billing.Keys.{ApiKey, find_key, touch_rows}
use temporal_cloud_offering.Billing.Keys.Api.{without}

-- The first row with a prefix and a hash has an id, an organization and an expiry.
abbrev pub IsFound : Text → Text → Text → Text → Option ℕ → List ApiKey → Type 0
IsFound prefix hash id organization expires rows =
    (row : ApiKey) × ((find_key prefix hash rows ≡ some row)
      × (row.id ≡ id)
      × (row.organization_id ≡ organization)
      × (row.expires_at ≡ expires))

module _ (prefix hash : Text) where
  pub find_key-append :
      (rows later : List ApiKey) (row : ApiKey)
      → find_key prefix hash rows ≡ some row
      → find_key prefix hash (rows ++ later) ≡ some row
  unfolding find_key
  find_key-append [] later row e = absurd cc
  find_key-append (r ∷ rows) later row e = ground (arith, find_key-append rows later row)

  pub find_key-last :
      (rows : List ApiKey) (row : ApiKey)
      → All (λ r. r.key_hash ≢ hash) rows
      → row.key_prefix ≡ prefix
      → row.key_hash ≡ hash
      → find_key prefix hash (rows ++ (row ∷ [])) ≡ some row
  unfolding find_key
  find_key-last [] row h p q =
      ground (arith, ==_iff row.key_prefix prefix, ==_iff row.key_hash hash)
  find_key-last (r ∷ rows) row (ne, h) p q =
      ground (arith, ==_iff r.key_hash hash, find_key-last rows row h p q)

  pub find_key-without :
      (id : Text) (rows : List ApiKey) (row : ApiKey)
      → find_key prefix hash rows ≡ some row
      → row.id ≢ id
      → find_key prefix hash (without id rows) ≡ some row
  unfolding find_key without
  find_key-without id [] row e ne = absurd cc
  find_key-without id (r ∷ rows) row e ne =
      elim (Bool-cases (r.key_prefix == prefix && r.key_hash == hash)) [
        | inl here ↦ ground (arith, ==_iff r.id id)
        | inr other ↦ ground (arith, find_key-without id rows row)
      ]

  pub touch_rows-IsFound :
      (used id organization : Text) (now : ℕ) (expires : Option ℕ) (rows : List ApiKey)
      → IsFound prefix hash id organization expires rows
      → IsFound prefix hash id organization expires (touch_rows used now rows)
  unfolding find_key
  touch_rows-IsFound used id organization now expires [] (row, (e, _, _, _)) = absurd cc
  touch_rows-IsFound used id organization now expires (r ∷ rows) (row, (e, i, o, x)) =
      elim (Bool-cases (r.key_prefix == prefix && r.key_hash == hash)) [
        | inl here ↦ elim (Bool-cases (r.key_prefix == used)) [
          | inl renewed ↦ (
            record r { last_used_at = some now },
            (rw (renewed, here) refl, ground arith, ground arith, ground arith),
          )
          | inr same ↦ (r, (rw (same, here) refl, ground arith, ground arith, ground arith))
        ]
        | inr other ↦
            let (row', (e', i', o', x')) =
              touch_rows-IsFound used id organization now expires rows
                (row, (ground arith, i, o, x)) in
            elim (Bool-cases (r.key_prefix == used)) [
              | inl renewed ↦ (row', (rw (renewed, other) e', i', o', x'))
              | inr same ↦ (row', (rw (same, other) e', i', o', x'))
            ]
      ]
