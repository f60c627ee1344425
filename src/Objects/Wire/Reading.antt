-- ===== src/Objects/Wire/Reading.antt =====
-- What is sent is read back.
use designate_private.Prelude.{
  ℕ, ◌≡◌, refl, ap, Bool, true, false, ◌&&◌, Option, some, List, [], ◌∷◌, if◌then◌else◌, map, All,
}
use designate_private.Prelude.Texts.{Text}
use designate_private.Objects.Wire.{
  Plain, null, number, text, time, Object, object, list_object, Fields, no_fields, plain_field,
  nested_field, Objects, no_objects, one_object, Classes, to_json, original_to_json, to_primitive,
  to_parts, to_messages, parse_time, read_plain, from_primitive, from_parts, from_messages,
}

abbrev pub IsTimeless : Plain → Type 0
IsTimeless (time t) = ⊥
IsTimeless _ = Unit

-- A value of a date-time field, and of another one.
abbrev pub IsFitting : Bool → Plain → Type 0
IsFitting true null = Unit
IsFitting true (time t) = Unit
IsFitting true _ = ⊥
IsFitting false p = IsTimeless p

originals_timeless :
    (strtime : ℕ → Text) (originals : List (ℕ × Plain))
    → All (λ (o : ℕ × Plain). IsTimeless (o.1)) originals
    → map (original_to_json strtime) originals ≡ originals
originals_timeless strtime [] h = refl
originals_timeless strtime ((name, null) ∷ os) h =
    ap (λ l. (name, null) ∷ l) (originals_timeless strtime os h.1)
originals_timeless strtime ((name, number n) ∷ os) h =
    ap (λ l. (name, number n) ∷ l) (originals_timeless strtime os h.1)
originals_timeless strtime ((name, text t) ∷ os) h =
    ap (λ l. (name, text t) ∷ l) (originals_timeless strtime os h.1)
originals_timeless strtime ((name, time t) ∷ os) h = absurd (h.0)

module _ (classes : Classes) where
  -- An object whose classes are registered and whose fields are theirs, with times in the date-time
  -- fields of objects that are no lists and nowhere else.
  abbrev mutual
    pub IsSound : Object → Type 0
    IsSound (object class fields changes originals) =
        (classes.is_known class ≡ true)
        × AreSound (classes.is_time class) class fields
        × All (λ (o : ℕ × Plain). IsTimeless (o.1)) originals
    IsSound (list_object class objects fields changes originals) =
        ((classes.is_known class && classes.is_list class) ≡ true)
        × AllSound objects
        × AreSound (λ name. false) class fields
        × All (λ (o : ℕ × Plain). IsTimeless (o.1)) originals

    AreSound : (ℕ → Bool) → ℕ → Fields → Type 0
    AreSound is_time class no_fields = Unit
    AreSound is_time class (plain_field name p fields) =
        (classes.has_field class name ≡ true)
        × IsFitting (is_time name) p
        × AreSound is_time class fields
    AreSound is_time class (nested_field name o fields) =
        (classes.has_field class name ≡ true) × IsSound o × AreSound is_time class fields

    AllSound : Objects → Type 0
    AllSound no_objects = Unit
    AllSound (one_object o objects) = IsSound o × AllSound objects

module _ (strtime : ℕ → Text) (parse_strtime : Text → Option ℕ) (classes : Classes)
    (parses : (t : ℕ) → parse_strtime (strtime t) ≡ some t) where
  parse_time_json :
      (p : Plain) → IsFitting true p → parse_time parse_strtime classes (to_json strtime p) ≡ some p
  parse_time_json null h = refl
  parse_time_json (number n) h = absurd h
  parse_time_json (text t) h = absurd h
  parse_time_json (time t) h = rw (parses t) refl

  to_json_timeless : (p : Plain) → IsTimeless p → to_json strtime p ≡ p
  to_json_timeless null h = refl
  to_json_timeless (number n) h = refl
  to_json_timeless (text t) h = refl
  to_json_timeless (time t) h = absurd h

  parse_if :
      (b : Bool) (p : Plain)
      → IsFitting b p
      → (if b
          then parse_time parse_strtime classes (to_json strtime p)
          else some (to_json strtime p))
        ≡ some p
  parse_if true p h = parse_time_json p h
  parse_if false p h = ap some (to_json_timeless p h)

  read_plain_json :
      (class name : ℕ) (p : Plain)
      → IsFitting (classes.is_time class name) p
      → read_plain parse_strtime classes class name (to_json strtime p) ≡ some p
  unfolding read_plain
  read_plain_json class name p h = parse_if (classes.is_time class name) p h

  mutual
    unfolding to_primitive from_primitive

    from_primitive_sound :
        (o : Object)
        → IsSound classes o
        → from_primitive parse_strtime classes (to_primitive strtime o) ≡ some o
    from_primitive_sound (object class fields changes originals) h =
        rw
          (
            h.0,
            from_parts_sound (classes.is_time class) (read_plain parse_strtime classes class)
                (read_plain_json class) class fields h.1,
            originals_timeless strtime originals h.2,
          )
          refl
    from_primitive_sound (list_object class objects fields changes originals) h =
        rw
          (
            h.0,
            from_messages_sound objects h.1,
            from_parts_sound (λ name. false) (λ name p. some p)
                (λ name p k. ap some (to_json_timeless p k)) class fields h.2,
            originals_timeless strtime originals h.3,
          )
          refl

    from_parts_sound :
        (is_time : ℕ → Bool) (read : ℕ → Plain → Option Plain)
        → ((name : ℕ) (p : Plain)
            → IsFitting (is_time name) p
            → read name (to_json strtime p) ≡ some p)
        → (class : ℕ) (fields : Fields) → AreSound classes is_time class fields
        → from_parts parse_strtime classes read class (to_parts strtime fields) ≡ some fields
    from_parts_sound is_time read reads class no_fields h = refl
    from_parts_sound is_time read reads class (plain_field name p fields) h =
        rw (h.0, reads name p h.1, from_parts_sound is_time read reads class fields h.2) refl
    from_parts_sound is_time read reads class (nested_field name o fields) h =
        rw (h.0, from_primitive_sound o h.1, from_parts_sound is_time read reads class fields h.2)
          refl

    from_messages_sound :
        (objects : Objects)
        → AllSound classes objects
        → from_messages parse_strtime classes (to_messages strtime objects) ≡ some objects
    from_messages_sound no_objects h = refl
    from_messages_sound (one_object o objects) h =
        rw (from_primitive_sound o h.0, from_messages_sound objects h.1) refl

-- Times are read back from their texts, and the object and all objects in it are of registered
-- classes, with fields of those classes, with times in the date-time fields of objects that are no
-- lists and in no other field or original value. Then the object that is sent is the one that is read.
pub from_primitive-to_primitive :
    (strtime : ℕ → Text) (parse_strtime : Text → Option ℕ) (classes : Classes)
    → ((t : ℕ) → parse_strtime (strtime t) ≡ some t)
    → (o : Object) → IsSound classes o
    → from_primitive parse_strtime classes (to_primitive strtime o) ≡ some o
from_primitive-to_primitive strtime parse_strtime classes parses o h =
    from_primitive_sound strtime parse_strtime classes parses o h
