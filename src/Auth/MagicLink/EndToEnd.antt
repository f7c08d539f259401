-- ===== src/Auth/MagicLink/EndToEnd.antt =====
-- From the request of a magic link to the sign-in: the link is good for a quarter of an hour, and
-- for one use.
use temporal_cloud_offering.Prelude.{
  ℕ, suc, ◌+◌, ◌≡◌, refl, ◌≤◌, ◌<◌, ◌∙◌, true, false, some, arith, length,
}
use temporal_cloud_offering.Text.{Text, codes, lookup}
use temporal_cloud_offering.Text.Hex.{to_hex}
use temporal_cloud_offering.Text.Hex.Laws.{non_empty-to_hex}
use temporal_cloud_offering.Json.{Json, str, num, fine, member, below}
use temporal_cloud_offering.Json.Doc.{Doc, parse, printed}
use temporal_cloud_offering.Platform.{Platform, KvLaws}
use temporal_cloud_offering.Platform.Exec.{World, done}
use temporal_cloud_offering.Auth.{Env, magic_link_key, generate_token, verify_link}
use temporal_cloud_offering.Auth.Signup.{lacks_at, token_record}
use temporal_cloud_offering.Auth.Signup.EndToEnd.{lacks_at-non_empty}
use temporal_cloud_offering.Auth.MagicLink.{
  post_magic_link, magic_link, send_link, link_sent, quarter_ms, quarter_ttl,
}
use temporal_cloud_offering.Auth.Verify.{magic_link_kind, get_verify, signed_in}
use temporal_cloud_offering.Auth.Verify.Laws.{is_signup, magic_link_once}
use temporal_cloud_offering.Auth.Verify.Token.{IsGoodToken}

module _ (p : Platform) (env : Env) (origin email link : Text) (w : World p.Store) where
  -- A request that passes the check, on a runtime where no call fails.
  pub record IsRequested (body : Doc) : Type 0 where
    pub input : Json
    pub parsed : parse body ≡ fine input
    pub email_given : member (some input) (codes "email") ≡ fine (some (str email))
    pub email_ok : lacks_at (some (str email)) ≡ fine false
    pub linked : verify_link origin (to_hex (p.random w.calls)) (some (str email)) ≡ fine link
    pub no_fault : (i : ℕ) → p.fault i ≡ false
    pub kv : env.kv ≡ true
    pub bytes_given : length (p.random w.calls) ≡ 32

  -- The token of the link, when it expires, and the store behind the request.
  abbrev pub link_token : Text
  link_token = to_hex (p.random w.calls)

  abbrev pub link_expires_at : ℕ
  link_expires_at = p.clock (suc w.calls) + quarter_ms

  abbrev pub link_store : p.Store
  link_store =
      p.put (p.clock (suc (suc w.calls))) (magic_link_key link_token)
        (printed (token_record (some (str email)) link_expires_at)) (some quarter_ttl) w.store

  send_link-store :
      (v : World p.Store)
      → ((i : ℕ) → p.fault i ≡ false)
      → ((send_link p env (some (str email)) link v).0 ≡ done tt)
        × ((send_link p env (some (str email)) link v).1.store ≡ v.store)
  unfolding send_link
  send_link-store v ok = ground (arith, ok (suc v.calls), ok (suc (suc v.calls)))

  post_magic_link_run :
      (body : Doc)
      → IsRequested body
      → ((post_magic_link p env origin body w).0 ≡ done link_sent)
        × ((post_magic_link p env origin body w).1.store ≡ link_store)
  unfolding post_magic_link magic_link generate_token
  post_magic_link_run body a = ground (
    arith,
    a.parsed,
    a.email_given,
    a.email_ok,
    a.linked,
    a.kv,
    a.no_fault (suc (suc w.calls)),
    send_link-store (record w { calls = suc (suc (suc w.calls)); store = link_store }) a.no_fault,
  )

  -- When the link is opened: on a clock that does not run backwards, after the token was stored,
  -- and before a quarter of an hour has passed at the second call of that run.
  pub record IsOpenedInTime (u : World p.Store) : Type 0 where
    pub forwards : (i j : ℕ) → i ≤ j → p.clock i ≤ p.clock j
    pub after : suc (suc w.calls) ≤ u.calls
    pub in_time : p.clock (suc u.calls) < link_expires_at

  link-IsGoodToken :
      (u : World p.Store)
      → KvLaws p
      → IsOpenedInTime u
      → u.store ≡ link_store
      → IsGoodToken p magic_link_kind link_token email u
  unfolding below lookup
  link-IsGoodToken u laws o same = record {
    token_data = token_record (some (str email)) link_expires_at;
    found = rw same (
        laws.get-put _ _ _ _ _ _ (o.forwards _ u.calls o.after) (
          omega (
            arith,
            o.in_time,
            o.forwards u.calls (suc u.calls) (omega arith),
            o.forwards (suc w.calls) (suc (suc w.calls)) (omega arith),
          )));
    owner = refl;
    expires_at = some (num link_expires_at);
    expiry = refl;
    fresh = ground (arith, o.in_time);
  }

  -- With a KV, and where no call fails, a request for a magic link with an accepted email is
  -- answered that the link was sent, whether or not a mail is configured or accepted. Its token,
  -- opened in time on the store that it left, signs the owner of the email in, and a later run on
  -- the store which that run left is refused.
  pub magic_link_then_verify :
      (body : Doc) (type : Text) (u v : World p.Store)
      → KvLaws p
      → IsRequested body
      → IsOpenedInTime u
      → is_signup type ≡ false
      → u.store ≡ (post_magic_link p env origin body w).1.store
      → v.store ≡ (get_verify p env link_token email type u).1.store
      → ((post_magic_link p env origin body w).0 ≡ done link_sent)
        × ((get_verify p env link_token email type u).0 ≡ done (signed_in email))
        × ((get_verify p env link_token email type v).0 ≡ done magic_link_kind.unknown)
  magic_link_then_verify body type u v laws a o kind same spent =
      let run = post_magic_link_run body a in
      let once =
        magic_link_once p env link_token email type u v laws a.kv
          (non_empty-to_hex (p.random w.calls) (omega (arith, a.bytes_given)))
          (lacks_at-non_empty email a.email_ok) kind (link-IsGoodToken u laws o (same ∙ run.1))
          (a.no_fault _) (a.no_fault _) spent (a.no_fault _) in
      (run.0, once.0, once.1)
