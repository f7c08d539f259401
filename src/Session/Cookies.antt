-- ===== src/Session/Cookies.antt =====
-- `getCookie` on the text that the browser makes of its cookies: it finds the value of a name that
-- occurs once, and nothing for a name that does not occur.
use temporal_cloud_offering.Prelude.{
  ℕ, ◌≡◌, ◌≢◌, refl, ◌∙◌, sym, ap, subst, true, List, [], ◌∷◌, ◌++◌, Option, none, some, arith, All,
  append_assoc, append-nil, All-append,
}
use temporal_cloud_offering.Text.{Text, codes, cut, strip_prefix, first_part}
use temporal_cloud_offering.Text.Split.{split}
use temporal_cloud_offering.Text.Split.Laws.{push_all, cut-append_free, split_one, split_two}
use temporal_cloud_offering.Session.{get_cookie, or_absent, cookie_value}
use temporal_cloud_offering.Session.Runtime.{
  Browser, BrowserLaws, IsName, IsValue, IsJar, cookie_entries, cookie_text,
}

-- No cookie of the list has the name.
abbrev pub IsAbsent : Text → List (Text × Text) → Type 0
IsAbsent name cookies = All (λ p. name ≢ p.0) cookies

-- What `getCookie` splits by.
abbrev marker : Text → Text
marker name = codes "; " ++ (name ++ codes "=")

strip_other :
    (name other rest : Text)
    → IsName name
    → IsName other
    → name ≢ other
    → strip_prefix (name ++ codes "=") (other ++ (b'=' ∷ rest)) ≡ none
unfolding strip_prefix
strip_other [] [] rest h k ne = absurd (ne refl)
strip_other [] (d ∷ other) rest h ((_, ne'), k) ne = ground arith
strip_other (c ∷ name) [] rest ((_, ne'), h) k ne = ground arith
strip_other (c ∷ name) (d ∷ other) rest (_, h) (_, k) ne =
    ground (arith, strip_other name other rest h k)

strip_same :
    (name rest : Text) → strip_prefix (name ++ codes "=") (name ++ (b'=' ∷ rest)) ≡ some rest
unfolding strip_prefix
strip_same [] rest = refl
strip_same (c ∷ name) rest = ground (arith, strip_same name rest)

-- Where the pattern does not start, the cut is found later.
cut-pass :
    (c : ℕ) (pattern s : Text)
    → strip_prefix pattern (c ∷ s) ≡ none
    → cut pattern (c ∷ s) ≡ push_all (c ∷ []) (cut pattern s)
unfolding cut
cut-pass c pattern s h = ground arith

cut-start :
    (c : ℕ) (pattern s rest : Text)
    → strip_prefix pattern (c ∷ s) ≡ some rest
    → cut pattern (c ∷ s) ≡ some ([], rest)
unfolding cut
cut-start c pattern s rest h = ground arith

first_part-cut :
    (s separator before after : Text)
    → cut separator s ≡ some (before, after)
    → first_part s separator ≡ before
unfolding first_part
first_part-cut s separator before after h = ground arith

first_part-whole : (s separator : Text) → cut separator s ≡ none → first_part s separator ≡ s
unfolding first_part
first_part-whole s separator h = ground arith

push_all_push :
    (c : ℕ) (u : Text) (o : Option (Text × Text))
    → push_all (c ∷ []) (push_all u o) ≡ push_all (c ∷ u) o
push_all_push c u none = refl
push_all_push c u (some _) = refl

-- A segment without a further `;`, which does not start as the marker does, is passed over.
cut-segment :
    (name u rest : Text)
    → IsValue u
    → strip_prefix (marker name) (b';' ∷ (u ++ rest)) ≡ none
    → cut (marker name) (b';' ∷ (u ++ rest)) ≡ push_all (b';' ∷ u) (cut (marker name) rest)
cut-segment name u rest h missing =
    cut-pass b';' (marker name) (u ++ rest) missing
    ∙ ap (push_all (b';' ∷ [])) (cut-append_free b';' (b' ' ∷ (name ++ codes "=")) u rest h)
    ∙ push_all_push b';' u (cut (marker name) rest)

IsName-IsValue : (name : Text) → IsName name → IsValue name
IsName-IsValue [] h = tt
IsName-IsValue (c ∷ name) ((ne, _), h) = (ne, IsName-IsValue name h)

-- `name=value`
abbrev pair_text : Text → Text → Text
pair_text name value = name ++ (b'=' ∷ value)

entry-eq :
    (name value rest : Text)
    → codes "; " ++ (name ++ (b'=' ∷ (value ++ rest)))
      ≡ b';' ∷ ((b' ' ∷ pair_text name value) ++ rest)
entry-eq name value rest = ap (λ t. codes "; " ++ t) (sym (append_assoc name (b'=' ∷ value) rest))

pair_text-IsValue :
    (name value : Text) → IsName name → IsValue value → IsValue (pair_text name value)
pair_text-IsValue name value h k =
    All-append (λ c. c ≢ b';') name (b'=' ∷ value) (IsName-IsValue name h) (omega arith, k)

marker-miss :
    (name other rest : Text)
    → IsName name
    → IsName other
    → name ≢ other
    → strip_prefix (marker name) (codes "; " ++ (other ++ (b'=' ∷ rest))) ≡ none
unfolding strip_prefix
marker-miss name other rest h k ne = strip_other name other rest h k ne

marker-cut :
    (name rest : Text) → cut (marker name) (codes "; " ++ (name ++ (b'=' ∷ rest))) ≡ some ([], rest)
unfolding strip_prefix
marker-cut name rest =
    cut-start b';' (marker name) (b' ' ∷ (name ++ (b'=' ∷ rest))) rest (strip_same name rest)

-- A cookie of another name is passed over.
cut-entry :
    (name other value : Text) (cookies : List (Text × Text))
    → IsName name
    → IsName other
    → IsValue value
    → name ≢ other
    → cut (marker name) (cookie_entries ((other, value) ∷ cookies))
      ≡ push_all (codes "; " ++ pair_text other value) (cut (marker name) (cookie_entries cookies))
cut-entry name other value cookies h k hv ne =
    ap (cut (marker name)) (entry-eq other value (cookie_entries cookies))
    ∙ cut-segment name (b' ' ∷ pair_text other value) (cookie_entries cookies)
        (omega arith, pair_text-IsValue other value k hv)
        (ap (strip_prefix (marker name)) (sym (entry-eq other value (cookie_entries cookies)))
          ∙ marker-miss name other (value ++ cookie_entries cookies) h k ne)

-- No cookie of the name: nothing is cut.
entries_uncut :
    (name : Text) (cookies : List (Text × Text))
    → IsName name
    → IsJar cookies
    → IsAbsent name cookies
    → cut (marker name) (cookie_entries cookies) ≡ none
entries_uncut name [] h jar absent = unfold cut strip_prefix in refl
entries_uncut name ((other, value) ∷ cookies) h ((k, hv), jar) (ne, absent) =
    cut-entry name other value cookies h k hv ne
    ∙ ap (push_all (codes "; " ++ pair_text other value)) (entries_uncut name cookies h jar absent)

text_uncut :
    (name : Text) (cookies : List (Text × Text))
    → IsName name
    → IsJar cookies
    → IsAbsent name cookies
    → cut (marker name) (codes "; " ++ cookie_text cookies) ≡ none
text_uncut [] [] h jar absent = unfold cut strip_prefix in refl
text_uncut (c ∷ name) [] h jar absent = unfold cut strip_prefix in refl
text_uncut name (p ∷ cookies) h jar absent = entries_uncut name (p ∷ cookies) h jar absent

-- The first cookie of the name is where the text is cut.
entries_cut :
    (name value : Text) (before after : List (Text × Text))
    → IsName name
    → IsJar before
    → IsAbsent name before
    → (u : Text) × (cut (marker name) (cookie_entries (before ++ ((name, value) ∷ after)))
        ≡ some (u, value ++ cookie_entries after))
entries_cut name value [] after h jar absent = ([], marker-cut name (value ++ cookie_entries after))
entries_cut name value ((other, v) ∷ before) after h ((k, hv), jar) (ne, absent) =
    let (u, found) = entries_cut name value before after h jar absent in
    (
      (codes "; " ++ pair_text other v) ++ u,
      cut-entry name other v (before ++ ((name, value) ∷ after)) h k hv ne
          ∙ ap (push_all (codes "; " ++ pair_text other v)) found,
    )

-- A value, with the cookies behind it, has no further occurrence of the name.
value_uncut :
    (name value : Text) (cookies : List (Text × Text))
    → IsName name
    → IsValue value
    → IsJar cookies
    → IsAbsent name cookies
    → cut (marker name) (value ++ cookie_entries cookies) ≡ none
value_uncut name value cookies h hv jar absent =
    cut-append_free b';' (b' ' ∷ (name ++ codes "=")) value (cookie_entries cookies) hv
    ∙ ap (push_all value) (entries_uncut name cookies h jar absent)

semicolon-cut : (rest : Text) → cut (codes ";") (b';' ∷ rest) ≡ some ([], rest)
unfolding strip_prefix
semicolon-cut rest = cut-start b';' (codes ";") rest rest refl

-- The value ends at the next `;`.
first_part-value :
    (value : Text) (cookies : List (Text × Text))
    → IsValue value
    → first_part (value ++ cookie_entries cookies) (codes ";") ≡ value
first_part-value value [] hv =
    first_part-whole (value ++ []) (codes ";")
      (cut-append_free b';' [] value [] hv ∙ (unfold cut strip_prefix in refl))
    ∙ append-nil value
first_part-value value ((name, v) ∷ cookies) hv =
    first_part-cut (value ++ cookie_entries ((name, v) ∷ cookies)) (codes ";") (value ++ [])
      (b' ' ∷ (name ++ (b'=' ∷ (v ++ cookie_entries cookies))))
      (cut-append_free b';' [] value (cookie_entries ((name, v) ∷ cookies)) hv
        ∙ ap (push_all value)
            (semicolon-cut (b' ' ∷ (name ++ (b'=' ∷ (v ++ cookie_entries cookies))))))
    ∙ append-nil value

IsJar-split :
    (before after : List (Text × Text)) (cookie : Text × Text)
    → IsJar (before ++ (cookie ∷ after))
    → IsJar before × ((IsName cookie.0 × IsValue cookie.1) × IsJar after)
IsJar-split [] after cookie h = (tt, h)
IsJar-split (p ∷ before) after cookie (k, h) =
    let (hb, rest) = IsJar-split before after cookie h in ((k, hb), rest)

entries-text :
    (cookies : List (Text × Text)) (before after : List (Text × Text)) (cookie : Text × Text)
    → cookies ≡ before ++ (cookie ∷ after)
    → codes "; " ++ cookie_text cookies ≡ cookie_entries cookies
entries-text [] [] after cookie e = cc
entries-text [] (p ∷ before) after cookie e = cc
entries-text (p ∷ cookies) before after cookie e = refl

module _ (b : Browser) (laws : BrowserLaws b) where
  -- A cookie whose name occurs once is found, and its value returned.
  pub get_cookie-found :
      (s : b.State) (name value : Text) (before after : List (Text × Text))
      → laws.cookies s ≡ before ++ ((name, value) ∷ after)
      → IsAbsent name before
      → IsAbsent name after
      → get_cookie b true name s ≡ or_absent value
  unfolding get_cookie
  get_cookie-found s name value before after e hb ha =
      let (jar, ((k, hv), jar')) =
        IsJar-split before after (name, value) (subst IsJar e (laws.cookies-IsJar s)) in
      let (u, found) = entries_cut name value before after k jar hb in
      let text : codes "; " ++ b.cookie s ≡ cookie_entries (before ++ ((name, value) ∷ after)) =
        ap (λ t. codes "; " ++ t) (laws.cookie-text s)
        ∙ entries-text (laws.cookies s) before after (name, value) e
        ∙ ap cookie_entries e in
      ap (λ t. cookie_value (split t (marker name))) text
      ∙ ap cookie_value (
          split_two b';' (b' ' ∷ (name ++ codes "="))
            (cookie_entries (before ++ ((name, value) ∷ after))) u (value ++ cookie_entries after)
            found (value_uncut name value after k hv jar' ha))
      ∙ ap or_absent (first_part-value value after hv)

  -- A name that no cookie has is not found.
  pub get_cookie-absent :
      (s : b.State) (name : Text)
      → IsName name
      → IsAbsent name (laws.cookies s)
      → get_cookie b true name s ≡ none
  unfolding get_cookie
  get_cookie-absent s name k absent =
      ap (λ t. cookie_value (split (codes "; " ++ t) (marker name))) (laws.cookie-text s)
      ∙ ap cookie_value (
          split_one b';' (b' ' ∷ (name ++ codes "=")) (codes "; " ++ cookie_text (laws.cookies s))
            (text_uncut name (laws.cookies s) k (laws.cookies-IsJar s) absent))
