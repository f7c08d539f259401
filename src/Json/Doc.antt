-- ===== src/Json/Doc.antt =====
-- A string as `JSON.parse` sees it: the print of a value, or a string that is no JSON. The program
-- stores strings in KV and in cookies, and only prints, parses and tests them.
use temporal_cloud_offering.Prelude.{
  ◌≡◌, refl, ◌⊎◌, inl, inr, Bool, true, false, Option, none, some, [], ◌∷◌,
}
use temporal_cloud_offering.Text.{Text, non_empty}
use temporal_cloud_offering.Json.{Json, Try, fine, type_error}

pub data Doc : Type 0 where
  printed : Json → Doc
  malformed : Text → Doc

-- `JSON.stringify(v)`
abbrev pub stringify : Json → Doc
stringify v = printed v

-- `JSON.parse(s)`
abbrev pub parse : Doc → Try Json
parse (printed v) = fine v
parse (malformed _) = type_error

-- The print of a value is never empty.
abbrev pub doc_truthy : Doc → Bool
doc_truthy (printed _) = true
doc_truthy (malformed s) = non_empty s

-- Whether what `KV.get` or `cookies.get` returns is truthy.
abbrev pub stored : Option Doc → Bool
stored none = false
stored (some d) = doc_truthy d

abbrev pub parse_stored : Option Doc → Try Json
parse_stored none = type_error
parse_stored (some d) = parse d

-- What a read returns: nothing that is truthy, a string that is no JSON, or the print of a value.
pub doc-cases :
    (d : Option Doc)
    → (stored d ≡ false)
      ⊎ ((stored d ≡ true) × (parse_stored d ≡ type_error))
      ⊎ ((j : Json) × (d ≡ some (printed j)))
doc-cases none = inl refl
doc-cases (some (printed j)) = inr (inr (j, refl))
doc-cases (some (malformed [])) = inl refl
doc-cases (some (malformed (x ∷ s))) = inr (inl (refl, refl))
