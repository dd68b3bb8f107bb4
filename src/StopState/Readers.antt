-- ===== src/StopState/Readers.antt =====
-- The readers of hyops/state/stop_state.py: `_mapping`, `_mapping_list`, `_text`, `_text_list`,
-- `_boolean`, `_decimal`, `_timestamp` and `_valid_review_date`. `StopStateManifestError` is a
-- `ValueError`. Decimals, dates and times of Python are the record `StopEnv`.
use Prim.Native.String.{◌++◌}
use hybridops_core.Prelude.{
  ℕ, suc, String, Bool, true, false, Option, none, some, List, [], ◌∷◌, distinct, ◌||◌, not,
  if◌then◌else◌,
}
use hybridops_core.Text.{is_empty, strip}
use hybridops_core.Raises.{Raises, ok, value_error, ◌>>=◌}
use hybridops_core.Value.{Value, null, bool, dict, seq, Items, nil, cons, Fields, get}
use hybridops_core.Value.Printing.{str_value, str_or_empty, show_nat}

-- A `Decimal`: `text` is what `_decimal_text` makes of it.
pub record DecimalValue : Type 0 where
  pub finite : Bool
  pub negative : Bool
  pub text : String

-- A `datetime`: `text` is its `isoformat()` with `Z` for `+00:00`.
pub record Moment : Type 0 where
  pub zoned : Bool
  pub text : String

-- `Decimal(s)`, `datetime.fromisoformat(s.replace("Z", "+00:00"))` and `date.fromisoformat(s)`, with
-- none for the exceptions that the readers handle, and whether a value is a `datetime`.
pub record StopEnv : Type 0 where
  pub parse_decimal : String → Option DecimalValue
  pub parse_moment : String → Option Moment
  pub is_date : String → Bool
  pub as_datetime : Value → Option Moment

-- `fields.get(key)`, and with a default
abbrev pub value_at : String → Fields → Value
value_at key fs = elim (get key fs) [ none ↦ null | some v ↦ v ]

abbrev pub value_or : Value → String → Fields → Value
value_or default key fs = elim (get key fs) [ none ↦ default | some v ↦ v ]

abbrev pub read_mapping : Value → String → Raises Fields
read_mapping (dict fs) label = ok fs
read_mapping _ label = value_error (label ++ " must be a mapping")

abbrev pub item_label : String → ℕ → String
item_label label index = label ++ "[" ++ show_nat index ++ "]"

unfoldable pub mapping_items : String → ℕ → Items → Raises (List Fields)
unfolding show_nat
mapping_items label index nil = ok []
mapping_items label index (cons item items) = do
  fs ← read_mapping item (item_label label index)
  rest ← mapping_items label (suc index) items
  ok (fs ∷ rest)

abbrev pub read_mapping_list : Value → String → Raises (List Fields)
read_mapping_list (seq items) label = mapping_items label 0 items
read_mapping_list _ label = value_error (label ++ " must be a list")

-- `_text(value, label, required=False)`
unfoldable pub text_of : Value → String
unfolding strip str_or_empty
text_of value = strip (str_or_empty value)

-- `_text(value, label)`
unfoldable pub read_text : Value → String → Raises String
unfolding text_of
read_text value label =
    if is_empty (text_of value) then value_error (label ++ " is required") else ok (text_of value)

unfoldable pub text_items : String → ℕ → Items → Raises (List String)
unfolding read_text show_nat
text_items label index nil = ok []
text_items label index (cons item items) = do
  token ← read_text item (item_label label index)
  rest ← text_items label (suc index) items
  ok (token ∷ rest)

-- From the tests for duplicates on.
abbrev pub distinct_texts : String → List String → Raises (List String)
distinct_texts label tokens =
    if distinct tokens
    then ok tokens
    else value_error (label ++ " contains duplicate resource identifiers")

unfoldable pub read_text_list : Value → String → Raises (List String)
unfolding text_items
read_text_list (seq items) label = text_items label 0 items >>= distinct_texts label
read_text_list _ label = value_error (label ++ " must be a list")

abbrev pub read_boolean : Value → String → Raises Bool
read_boolean (bool b) label = ok b
read_boolean _ label = value_error (label ++ " must be a boolean")

-- `isinstance(value, bool) or value is None`
abbrev pub is_no_number : Value → Bool
is_no_number null = true
is_no_number (bool b) = true
is_no_number _ = false

module _ (env : StopEnv) where
  -- `_decimal_text(_decimal(value, label))`
  unfoldable pub read_decimal : Value → String → Raises String
  unfolding str_value
  read_decimal value label =
      let error = label ++ " must be a non-negative number" in
      if is_no_number value then value_error error else elim (env.parse_decimal (str_value value)) [
        | none ↦ value_error error
        | some amount ↦
            if not amount.finite || amount.negative then value_error error else ok amount.text
      ]

  abbrev pub zoned_text : Moment → String → Raises String
  zoned_text parsed label =
      if parsed.zoned then ok parsed.text else value_error (label ++ " must include a timezone")

  abbrev pub parsed_text : Option Moment → String → Raises String
  parsed_text none label = value_error (label ++ " must be an ISO 8601 timestamp")
  parsed_text (some parsed) label = zoned_text parsed label

  unfoldable pub read_timestamp : Value → String → Raises String
  unfolding read_text
  read_timestamp value label = elim (env.as_datetime value) [
    | some parsed ↦ zoned_text parsed label
    | none ↦ read_text value label >>= λ token. parsed_text (env.parse_moment token) label
  ]

  abbrev pub valid_review_date : String → Bool
  valid_review_date value = if is_empty value then false else env.is_date value
