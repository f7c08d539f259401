-- ===== src/Json/Laws.antt =====
-- Laws of objects: what a property reads after a write.
use temporal_cloud_offering.Prelude.{◌≡◌, refl, ap, List, [], ◌∷◌, some, ◌≢◌, arith}
use temporal_cloud_offering.Text.{Text, insert}
use temporal_cloud_offering.Text.Laws.{lookup-insert, ==_iff, ==_refl}
use temporal_cloud_offering.Json.{Json, obj, Fields, fields, object, fine, member}

pub fields-object : (m : List (Text × Json)) → fields (object m) ≡ m
fields-object [] = refl
fields-object ((k, v) ∷ m) = ap (λ l. (k, v) ∷ l) (fields-object m)

-- The object with one property written.
abbrev pub with_field : Text → Json → Fields → Fields
with_field name value fs = object (insert name value (fields fs))

pub member-with_field_self :
    (name : Text) (value : Json) (fs : Fields)
    → member (some (obj (with_field name value fs))) name ≡ fine (some value)
member-with_field_self name value fs = rw (fields-object, lookup-insert, ==_refl) refl

pub member-with_field_ne :
    (name other : Text) (value : Json) (fs : Fields)
    → name ≢ other
    → member (some (obj (with_field name value fs))) other ≡ member (some (obj fs)) other
member-with_field_ne name other value fs ne =
    rw (fields-object, lookup-insert) (ground (arith, ==_iff name other))
