-- ===== src/Schema/Partials.antt =====
-- `Partial` of schema.ts: what is known of an entity that may be an attribute.
use ramose.Base.{ℕ, Bool, false, ◌||◌, Option, none, some, List, [], ◌==◌, if◌then◌else◌}
use ramose.Datom.{CodeUnit, strings_equal, Value, str, bool, Datom}
use ramose.Schema.{db_value_type, db_cardinality, db_unique, db_is_component, db_index, db_doc}

pub record Partial : Type 0 where
  pub ident : Option (List CodeUnit)
  pub value_type : Option (List CodeUnit)
  pub cardinality : Option (List CodeUnit)
  pub unique : Option (List CodeUnit)
  pub index : Option Bool
  pub is_component : Option Bool
  pub doc : Option (List CodeUnit)

abbrev pub new_partial : Partial
new_partial = record {
  ident = none;
  value_type = none;
  cardinality = none;
  unique = none;
  index = none;
  is_component = none;
  doc = none;
}

-- `d.v as string`
unfoldable pub text_of : Value → List CodeUnit
text_of (str s) = s
text_of _ = []

-- `d.v as boolean`
unfoldable pub truth_of : Value → Bool
truth_of (bool b) = b
truth_of _ = false

-- `d.op ? d.v : undefined`
unfoldable pub text_if : Bool → Value → Option (List CodeUnit)
unfolding text_of
text_if op v = if op then some (text_of v) else none

unfoldable pub truth_if : Bool → Value → Option Bool
unfolding truth_of
truth_if op v = if op then some (truth_of v) else none

-- The attributes of the `switch` but `:db/ident`.
unfoldable pub is_field : ℕ → Bool
is_field a =
    a == db_value_type
    || a == db_cardinality
    || a == db_unique
    || a == db_index
    || a == db_is_component
    || a == db_doc

unfoldable pub set_field : Datom → Partial → Partial
unfolding text_if truth_if
set_field d p =
    if d.a == db_value_type
    then record p { value_type = text_if d.op d.v }
    else if d.a == db_cardinality
    then record p { cardinality = text_if d.op d.v }
    else if d.a == db_unique
    then record p { unique = text_if d.op d.v }
    else if d.a == db_index
    then record p { index = truth_if d.op d.v }
    else if d.a == db_is_component
    then record p { is_component = truth_if d.op d.v }
    else record p { doc = text_if d.op d.v }

unfoldable pub same_text : Option (List CodeUnit) → List CodeUnit → Bool
unfolding strings_equal
same_text none u = false
same_text (some w) u = strings_equal w u
