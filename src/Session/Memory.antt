-- ===== src/Session/Memory.antt =====
-- A browser in memory: an instance at which the laws of `BrowserLaws` hold. A cookie that the page
-- itself writes has expired, as every cookie that the program writes to `document.cookie`.
use temporal_cloud_offering.Prelude.{
  ℕ, ◌≡◌, ◌≢◌, refl, ◌∙◌, ap, Bool, true, ◌&&◌, not, List, [], ◌∷◌, ◌++◌, Option, none, some, All,
  eqb, arith, if◌then◌else◌, append-nil, Bool-cases, inl, inr,
}
use temporal_cloud_offering.Text.{Text, codes, cut, strip_prefix, lookup, insert, remove, ◌==◌}
use temporal_cloud_offering.Text.Laws.{lookup-insert, lookup-remove}
use temporal_cloud_offering.Text.Split.Laws.{push_all, cut-append_free}
use temporal_cloud_offering.Json.Doc.{Doc, malformed}
use temporal_cloud_offering.Session.Runtime.{
  Browser, BrowserLaws, IsName, IsValue, IsJar, cookie_text,
}

pub record Tab : Type 0 where
  pub jar : List (Text × Text)
  pub items : List (Text × Doc)

unfoldable pub is_free : ℕ → Text → Bool
is_free c [] = true
is_free c (d ∷ s) = not (eqb d c) && is_free c s

unfoldable pub is_cookie : Text × Text → Bool
is_cookie (name, value) = is_free b';' name && is_free b'=' name && is_free b';' value

-- The cookies that a browser can hold.
unfoldable pub held : List (Text × Text) → List (Text × Text)
held [] = []
held (cookie ∷ cookies) =
    let rest = held cookies in if is_cookie cookie then cookie ∷ rest else rest

abbrev expire : List (Text × Text) → Option (Text × Text) → List (Text × Text)
expire jar none = jar
expire jar (some (name, _)) = remove name jar

is_free_lem : (c : ℕ) (s : Text) → is_free c s ≡ true → All (λ d. d ≢ c) s
unfolding is_free
is_free_lem c [] h = tt
is_free_lem c (d ∷ s) h = (ground arith, is_free_lem c s (ground arith))

both-IsName : (name : Text) → All (λ d. d ≢ b';') name → All (λ d. d ≢ b'=') name → IsName name
both-IsName [] h k = tt
both-IsName (c ∷ name) (h, hs) (k, ks) = ((h, k), both-IsName name hs ks)

name-IsFree : (name : Text) → IsName name → All (λ d. d ≢ b'=') name
name-IsFree [] h = tt
name-IsFree (c ∷ name) ((_, h), hs) = (h, name-IsFree name hs)

is_cookie_lem : (name value : Text) → is_cookie (name, value) ≡ true → IsName name × IsValue value
unfolding is_cookie
is_cookie_lem name value h = (
  both-IsName name (is_free_lem b';' name (ground arith)) (is_free_lem b'=' name (ground arith)),
  is_free_lem b';' value (ground arith),
)

held-IsJar : (cookies : List (Text × Text)) → IsJar (held cookies)
unfolding held
held-IsJar [] = tt
held-IsJar ((name, value) ∷ cookies) = elim (Bool-cases (is_cookie (name, value))) [
  | inl h ↦ rw h (is_cookie_lem name value h, held-IsJar cookies)
  | inr h ↦ rw h (held-IsJar cookies)
]

held-remove :
    (name : Text) (cookies : List (Text × Text))
    → held (remove name cookies) ≡ remove name (held cookies)
unfolding held remove
held-remove name [] = refl
held-remove name (cookie ∷ cookies) = ground (arith, held-remove name cookies)

equals_cut :
    cut (codes "=") (codes "=; path=/; expires=Thu, 01 Jan 1970 00:00:00 GMT")
    ≡ some ([], codes "; path=/; expires=Thu, 01 Jan 1970 00:00:00 GMT")
unfolding cut strip_prefix
equals_cut = refl

module _ (read : Text → Doc) where
  abbrev pub tab : Browser
  tab = record {
    State = Tab;
    cookie = λ s. cookie_text (held s.jar);
    set_cookie = λ text s. record s { jar = expire s.jar (cut (codes "=") text) };
    get_item = λ key s. lookup key s.items;
    set_item = λ key value s. some (record s { items = insert key value s.items });
    remove_item = λ key s. record s { items = remove key s.items };
    read = read;
  }

  expire-name :
      (name : Text) (s : Tab)
      → IsName name
      → held
          (tab.set_cookie (name ++ codes "=; path=/; expires=Thu, 01 Jan 1970 00:00:00 GMT") s).jar
        ≡ remove name (held s.jar)
  expire-name name s h =
      ap (λ o. held (expire s.jar o))
        (cut-append_free b'=' [] name (codes "=; path=/; expires=Thu, 01 Jan 1970 00:00:00 GMT")
            (name-IsFree name h)
          ∙ ap (push_all name) equals_cut)
      ∙ ap (λ n. held (remove n s.jar)) (append-nil name)
      ∙ held-remove name s.jar

  written :
      (key other : Text) (value : Doc) (s s' : Tab)
      → tab.set_item key value s ≡ some s'
      → lookup other s'.items ≡ (if key == other then some value else lookup other s.items)
  written key other value s s' e =
      let same : s'.items ≡ insert key value s.items = ground arith in
      ap (lookup other) same ∙ lookup-insert key other value s.items

  pub tab_laws : read [] ≡ malformed [] → BrowserLaws tab
  tab_laws empty = record {
    cookies = λ s. held s.jar;
    cookies-IsJar = λ s. held-IsJar s.jar;
    cookie-text = λ s. refl;
    cookies-expire = expire-name;
    get-set_item = λ key other value s s' e. written key other value s s' e;
    get-remove_item = λ key other s. lookup-remove key other s.items;
    read-empty = empty;
    get-set_cookie = λ text other s. refl;
  }

  pub tab-cookies :
      (empty : read [] ≡ malformed []) (s : Tab) → (tab_laws empty).cookies s ≡ held s.jar
  unfolding tab_laws
  tab-cookies empty s = refl
