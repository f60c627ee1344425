-- ===== src/Objects/Wire.antt =====
-- to_primitive and from_primitive of objects/base.py, and the conversion to JSON types between them
-- in rpc.py. An object has the fields that are set, in the order of FIELDS, and a set of changes as
-- its sorted list; a list object has the objects of its list besides. Classes and fields are numbers.
-- The text of a time and its reading are oslo's; original values that are objects are left out.
pub mod Reading
mod Tests
use designate_private.Prelude.{
  ℕ, Bool, true, false, ◌&&◌, Option, none, some, List, [], ◌∷◌, ◌>>=◌, if◌then◌else◌, map,
}
use designate_private.Prelude.Texts.{Text}

pub data Plain : Type 0 where
  null : Plain
  number : ℕ → Plain
  text : Text → Plain
  time : ℕ → Plain

mutual
  pub data Object : Type 0 where
    object : ℕ → Fields → List ℕ → List (ℕ × Plain) → Object
    list_object : ℕ → Objects → Fields → List ℕ → List (ℕ × Plain) → Object

  pub data Fields : Type 0 where
    no_fields : Fields
    plain_field : ℕ → Plain → Fields → Fields
    nested_field : ℕ → Object → Fields → Fields

  pub data Objects : Type 0 where
    no_objects : Objects
    one_object : Object → Objects → Objects

-- What is sent: designate_object.name, .data, .changes and .original_values.
mutual
  pub data Message : Type 0 where
    message : ℕ → Parts → List ℕ → List (ℕ × Plain) → Message
    list_message : ℕ → Messages → Parts → List ℕ → List (ℕ × Plain) → Message

  pub data Parts : Type 0 where
    no_parts : Parts
    plain_part : ℕ → Plain → Parts → Parts
    nested_part : ℕ → Message → Parts → Parts

  pub data Messages : Type 0 where
    no_messages : Messages
    one_message : Message → Messages → Messages

-- The registry of classes and their FIELDS; `is_time` tells a schema of format date-time.
pub record Classes : Type 0 where
  pub is_known : ℕ → Bool
  pub is_list : ℕ → Bool
  pub has_field : ℕ → ℕ → Bool
  pub is_time : ℕ → ℕ → Bool

module _ (strtime : ℕ → Text) where
  abbrev pub to_json : Plain → Plain
  to_json (time t) = text (strtime t)
  to_json p = p

  abbrev pub original_to_json : ℕ × Plain → ℕ × Plain
  original_to_json (name, p) = (name, to_json p)

  unfoldable mutual
    pub to_primitive : Object → Message
    to_primitive (object class fields changes originals) =
        message class (to_parts fields) changes (map original_to_json originals)
    to_primitive (list_object class objects fields changes originals) =
        list_message class (to_messages objects) (to_parts fields) changes
          (map original_to_json originals)

    pub to_parts : Fields → Parts
    to_parts no_fields = no_parts
    to_parts (plain_field name p fields) = plain_part name (to_json p) (to_parts fields)
    to_parts (nested_field name o fields) = nested_part name (to_primitive o) (to_parts fields)

    pub to_messages : Objects → Messages
    to_messages no_objects = no_messages
    to_messages (one_object o objects) = one_message (to_primitive o) (to_messages objects)

module _ (parse_strtime : Text → Option ℕ) (classes : Classes) where
  -- timeutils.parse_strtime of what is not a text is TypeError.
  abbrev pub parse_time : Plain → Option Plain
  parse_time null = some null
  parse_time (text t) = parse_strtime t >>= λ n. some (time n)
  parse_time (number n) = none
  parse_time (time t) = none

  -- A list object does not look at its schema.
  unfoldable pub read_plain : ℕ → ℕ → Plain → Option Plain
  read_plain class name p = if classes.is_time class name then parse_time p else some p

  -- Setting a field that the class does not have is an exception.
  abbrev pub guard : Bool → Option Fields → Option Fields
  guard true fields = fields
  guard false fields = none

  abbrev pub known : Bool → Option Object → Option Object
  known true o = o
  known false o = none

  unfoldable mutual
    unfolding read_plain

    -- The instance's changes are first those of setting its fields, then the primitive's.
    pub from_primitive : Message → Option Object
    from_primitive (message class parts changes originals) = known (classes.is_known class) (
        from_parts (read_plain class) class parts >>= λ fields.
        some (object class fields changes originals))
    from_primitive (list_message class messages parts changes originals) =
        known (classes.is_known class && classes.is_list class) (
          from_messages messages >>= λ objects.
          from_parts (λ name p. some p) class parts >>= λ fields.
          some (list_object class objects fields changes originals))

    pub from_parts : (ℕ → Plain → Option Plain) → ℕ → Parts → Option Fields
    from_parts read class no_parts = some no_fields
    from_parts read class (plain_part name p parts) = guard (classes.has_field class name) (
        read name p >>= λ value.
        from_parts read class parts >>= λ fields. some (plain_field name value fields))
    from_parts read class (nested_part name m parts) = guard (classes.has_field class name) (
        from_primitive m >>= λ o.
        from_parts read class parts >>= λ fields. some (nested_field name o fields))

    pub from_messages : Messages → Option Objects
    from_messages no_messages = some no_objects
    from_messages (one_message m messages) =
        from_primitive m >>= λ o. from_messages messages >>= λ objects. some (one_object o objects)
