-- ===== src/Billing/MagicLink.antt =====
-- The magic links of the billing service: `SendMagicLink` and `VerifyMagicLink` of
-- billing-service/service.go. The table has one link for each email, under its primary key; the
-- machine is that of the API keys. The text of a mail around its link is left out.
pub mod Laws
use temporal_cloud_offering.Prelude.{
  ℕ, suc, ◌+◌, ◌*◌, Bool, true, false, not, ◌&&◌, ◌||◌, List, [], ◌∷◌, ◌++◌, Option, none, some,
  ltb, leb, eqb, if◌then◌else◌,
}
use temporal_cloud_offering.Text.{
  Text, codes, ◌==◌, non_empty, or_else, includes, first_part, insert, lookup, remove,
}
use temporal_cloud_offering.Text.Hex.{to_hex}
use temporal_cloud_offering.Billing.Keys.{
  Host, Headers, Tables, Passage, next, unauthorized, authenticate, auth_enabled,
}

-- The environment; `json.Marshal` of the user's three fields, of an email and a name; the value
-- that `http.SetCookie` writes for a text; `Query().Get` of a URL and a key.
pub record Settings : Type 0 where
  pub base_url : Text
  pub resend_api_key : Text
  pub marshal_user : Text → Text → Text
  pub cookie_value : Text → Text
  pub query_get : Text → Text → Text

pub record Link : Type 0 where
  pub token : Text
  pub expires_at : ℕ

-- A link that was mailed, or logged where there is no mail service.
pub data Notice : Type 0 where
  mailed : Text → Text → Notice
  logged : Text → Text → Notice

pub record Links : Type 0 where
  pub calls : ℕ
  pub magic_links : List (Text × Link)
  pub notices : List Notice

-- The status and the message of the answer to a request for a link.
abbrev pub Sent : Type 0
Sent = ℕ × Text

-- Where the browser is sent, with the `Set-Cookie` header.
abbrev pub Redirect : Type 0
Redirect = Text × Option Text

abbrev pub quarter : ℕ
quarter = 15 * 60000000000

-- What opening a link comes to: the redirect of the handler, or an error of the middleware.
pub data Opened : Type 0 where
  redirected : Redirect → Opened
  refused : ℕ → Text → Opened

abbrev pub no_headers : Headers
no_headers = record { authorization = []; x_api_key = [] }

abbrev pub invalid_link : Redirect
invalid_link = (codes "/login?error=invalid_link", none)

module _ (h : Host) (settings : Settings) where
  abbrev pub called : Links → Links
  called w = record w { calls = suc w.calls }

  -- The statement with `ON CONFLICT (email) DO UPDATE`: whether it ran.
  unfoldable pub upsert : Text → Text → ℕ → Links → Bool × Links
  unfolding insert
  upsert email token expires w = if h.fault w.calls then (false, called w) else (
    true,
    record (called w) {
      magic_links =
          insert email (record { token = token; expires_at = h.stored expires }) w.magic_links;
    },
  )

  -- After a failure the table is made, where it is missing, and the statement tried once more.
  abbrev pub retried : (Links → Bool × Links) → Bool × Links → Bool × Links
  retried again (true, w) = (true, w)
  retried again (false, w) = again (called w)

  unfoldable pub magic_link_url : Text → Text → Text
  magic_link_url token email =
      or_else settings.base_url (codes "https://temporal-cloud-marketing.pages.dev")
      ++ (codes "/api/auth/verify?token=" ++ (token ++ (codes "&email=" ++ email)))

  abbrev pub notify : Text → Text → Bool × Links → Sent × Links
  notify email token (false, w) = ((500, codes "failed to create magic link"), w)
  notify email token (true, w) =
      let link = magic_link_url token email in
      let notice =
        if non_empty settings.resend_api_key then mailed email link else logged email link in
      (
        (200, codes "If this email is registered, you will receive a sign-in link."),
        record (called w) { notices = notice ∷ w.notices },
      )

  -- The email of the body, `none` where it does not decode.
  unfoldable pub send_magic_link : Option Text → Links → Sent × Links
  unfolding upsert magic_link_url includes
  send_magic_link none w = ((400, codes "invalid request"), w)
  send_magic_link (some email) w =
      if not (non_empty email) || not (includes email (codes "@"))
      then ((400, codes "invalid email"), w)
      else elim (h.random w.calls) [
        | none ↦ ((500, codes "internal error"), called w)
        | some bytes ↦
            let store = upsert email (to_hex bytes) (h.clock w.calls + quarter) in
            notify email (to_hex bytes) (retried store (store (called w)))
      ]

  unfoldable pub auth_header : Text → Text
  unfolding first_part
  auth_header email =
      codes "auth="
      ++ (settings.cookie_value (settings.marshal_user email (first_part email (codes "@")))
          ++ codes "; Path=/; Max-Age=604800; Secure; SameSite=Lax")

  -- The row that was found; an error of the deletion is dropped.
  abbrev pub check_link : Text → Text → Option Link → Links → Redirect × Links
  check_link token email none w = (invalid_link, w)
  check_link token email (some link) w =
      if not (link.token == token)
      then (invalid_link, w)
      else if ltb link.expires_at (h.clock w.calls)
      then ((codes "/login?error=link_expired", none), w)
      else (
        (codes "/dashboard", some (auth_header email)),
        if h.fault w.calls
            then called w
            else record (called w) { magic_links = remove email w.magic_links },
      )

  unfoldable pub verify_magic_link : Text → Text → Links → Redirect × Links
  unfolding lookup remove auth_header
  verify_magic_link token email w =
      if not (non_empty token) || not (non_empty email)
      then (invalid_link, w)
      else if h.fault w.calls
      then (invalid_link, called w)
      else check_link token email (lookup email w.magic_links) (called w)

  -- The handler of a URL, behind the middleware where that is enabled.
  abbrev pub behind : Passage → Text → Links → Opened × Links
  behind (unauthorized message) url w = (refused 401 message, w)
  behind (next organization) url w =
      let (redirect, v) =
        verify_magic_link (settings.query_get url (codes "token"))
          (settings.query_get url (codes "email")) w in
      (redirected redirect, v)

  -- A browser opens a URL of the route: it sends no key.
  unfoldable pub open_link : Tables → Text → Links → Opened × Links
  unfolding verify_magic_link authenticate auth_enabled
  open_link tables url w =
      if auth_enabled h.enable_auth
      then behind (authenticate h (codes "/api/v1/auth/verify") no_headers tables).0 url w
      else behind (next none) url w
