-- ===== src/Objects/Wire/Tests.antt =====
-- A list of one zone with a date-time field.
use designate_private.Prelude.{ℕ, ◌≡◌, refl, true, Option, none, some, List, [], ◌∷◌, ◌==◌, ◌&&◌}
use designate_private.Prelude.Texts.{Text}
use designate_private.Objects.Wire.{
  Plain, text, time, Object, object, list_object, no_fields, plain_field, no_objects, one_object,
  Classes, to_primitive, from_primitive,
}
use designate_private.Objects.Wire.Reading.{from_primitive-to_primitive}

abbrev strtime : ℕ → Text
strtime t = t ∷ []

abbrev parse_strtime : Text → Option ℕ
parse_strtime (t ∷ []) = some t
parse_strtime _ = none

-- Class 0 is Zone, class 1 is ZoneList; field 0 is the name, field 1 created_at.
abbrev classes : Classes
classes = record {
  is_known = λ c. true;
  is_list = λ c. c == 1;
  has_field = λ c f. true;
  is_time = λ c f. (c == 0) && (f == 1);
}

abbrev zone : List (ℕ × Plain) → Object
zone originals =
    object 0 (plain_field 0 (text (7 ∷ [])) (plain_field 1 (time 99) no_fields)) (0 ∷ []) originals

abbrev zones : Object
zones = list_object 1 (one_object (zone ((0, text []) ∷ [])) no_objects) no_fields [] []

from_primitive-to_primitive_example :
    from_primitive parse_strtime classes (to_primitive strtime zones) ≡ some zones
from_primitive-to_primitive_example =
    from_primitive-to_primitive strtime parse_strtime classes (λ t. refl) zones
      (refl, ((refl, (refl, tt, (refl, tt, tt)), (tt, tt)), tt), tt, tt)

-- The original value of a date-time field comes back as a text.
original_time_test :
    from_primitive parse_strtime classes (to_primitive strtime (zone ((1, time 98) ∷ [])))
    ≡ some (zone ((1, text (98 ∷ [])) ∷ []))
unfolding from_primitive to_primitive
original_time_test = refl
