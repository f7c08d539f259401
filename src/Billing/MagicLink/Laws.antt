-- ===== src/Billing/MagicLink/Laws.antt =====
-- Magic links of the billing service: who is signed in, and how often.
use temporal_cloud_offering.Prelude.{
  ℕ, suc, ◌+◌, ◌≡◌, refl, ap, ◌∙◌, ◌≢◌, inl, inr, true, false, List, some, arith, ltb, Option-cases,
}
use temporal_cloud_offering.Text.{Text, codes, ◌==◌, non_empty, insert, lookup}
use temporal_cloud_offering.Text.Laws.{==_iff, ==_refl, lookup-insert}
use temporal_cloud_offering.Text.Hex.{to_hex}
use temporal_cloud_offering.Billing.Keys.{Host}
use temporal_cloud_offering.Billing.MagicLink.{
  Settings, Link, Links, quarter, invalid_link, upsert, send_magic_link, auth_header,
  verify_magic_link,
}

module _ (h : Host) (settings : Settings) where
  -- Verification signs in only with the stored token of the email, before it expires.
  pub verify_magic_link_sound :
      (token email : Text) (w v : Links) (location cookie : Text)
      → verify_magic_link h settings token email w ≡ ((location, some cookie), v)
      → (link : Link) × ((lookup email w.magic_links ≡ some link)
          × (link.token ≡ token)
          × (ltb link.expires_at (h.clock (suc w.calls)) ≡ false)
          × (location ≡ codes "/dashboard")
          × (cookie ≡ auth_header h settings email)
          × (non_empty token ≡ true))
  unfolding verify_magic_link
  verify_magic_link_sound token email w v location cookie e =
      elim (Option-cases (lookup email w.magic_links)) [
        | inl missing ↦ absurd (ground arith)
        | inr (link, found) ↦ (
          link,
          (
            found,
            ground (arith, ==_iff link.token token),
            ground arith,
            ground arith,
            ground arith,
            ground arith,
          ),
        )
      ]

  -- What the table has for the email that a link was sent for.
  sent_link :
      (email message : Text) (w v : Links)
      → send_magic_link h settings (some email) w ≡ ((200, message), v)
      → (bytes : List ℕ) × ((h.random w.calls ≡ some bytes)
          × (lookup email v.magic_links
              ≡ some (record {
                token = to_hex bytes;
                expires_at = h.stored (h.clock w.calls + quarter);
              }))
          × (non_empty email ≡ true))
  unfolding send_magic_link upsert
  sent_link email message w v e = elim (Option-cases (h.random w.calls)) [
    | inl fails ↦ absurd (ground arith)
    | inr (bytes, drawn) ↦
        let link : Link = record {
          token = to_hex bytes;
          expires_at = h.stored (h.clock w.calls + quarter);
        } in
        let table : v.magic_links ≡ insert email link w.magic_links = ground arith in
        let found : lookup email (insert email link w.magic_links) ≡ some link =
          lookup-insert email email link w.magic_links ∙ rw (==_refl email) refl in
        (bytes, (drawn, ap (lookup email) table ∙ found, ground arith))
  ]

  -- Only the last link of an email is good: after one more is sent with the answer 200, every other
  -- token of that email is refused.
  last_link_only :
      (email message old : Text) (w v : Links) (bytes : List ℕ)
      → send_magic_link h settings (some email) w ≡ ((200, message), v)
      → h.random w.calls ≡ some bytes
      → to_hex bytes ≢ old
      → (verify_magic_link h settings old email v).0 ≡ invalid_link
  unfolding verify_magic_link
  last_link_only email message old w v bytes sent random other =
      let (bytes', (drawn, found, some_email)) = sent_link email message w v sent in
      let differs : (to_hex bytes' == old) ≡ false = ground (arith, ==_iff (to_hex bytes') old) in
      ground arith
