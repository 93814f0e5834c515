-- ===== src/Transport/JsonProtocol/Tests.antt =====
-- Requests and messages over a small JSON library, for transport/src/json_protocol.cpp.
use text.Mathlib.Text.{◌==◌ as str_eq}
use clear_space.Prelude.{
  ℕ, ◌≡◌, refl, String, Bool, true, false, Option, none, some, List, [], ◌∷◌, if◌then◌else◌, arith,
}
use clear_space.Core.Types.{value, error}
use clear_space.Transport.Json.{JsonLibrary}
use clear_space.Transport.Messages.{ClientMessage, stroke_begin_request, ok_response}
use clear_space.Transport.JsonProtocol.{
  get_required, get_required_point, read_point, parse_stroke_begin, parse_typed, parse_object,
  parse_client_message, serialize_server_message, make_message, missing_field, invalid_field_type,
}
use clear_space.Transport.JsonProtocol.Fields.{Describes}
use clear_space.Transport.JsonProtocol.Requests.{parse_client_message-Describes}
use clear_space.Transport.JsonProtocol.Described.{Describes-parse_client_message}

-- A value is a text, a number, or an object: a chain of fields.
data Value : Type 0 where
  label : String → Value
  number : ℕ → Value
  no_fields : Value
  field : String → Value → Value → Value

abbrev is_chain : Value → Bool
is_chain (label s) = false
is_chain (number n) = false
is_chain no_fields = true
is_chain (field k v rest) = true

abbrev has_key : Value → String → Bool
has_key (label s) key = false
has_key (number n) key = false
has_key no_fields key = false
has_key (field k v rest) key = let there = has_key rest key in if str_eq k key then true else there

abbrev look_up : Value → String → Value
look_up (label s) key = label s
look_up (number n) key = number n
look_up no_fields key = no_fields
look_up (field k v rest) key = let later = look_up rest key in if str_eq k key then v else later

abbrev text_of : Value → Option String
text_of (label s) = some s
text_of (number n) = none
text_of no_fields = none
text_of (field k v rest) = none

abbrev number_of : Value → Option ℕ
number_of (label s) = none
number_of (number n) = some n
number_of no_fields = none
number_of (field k v rest) = none

abbrev chain : List (String × Value) → Value
chain [] = no_fields
chain ((k, v) ∷ fields) = field k v (chain fields)

abbrev line_of_stroke : String
line_of_stroke = "{\"type\":\"stroke_begin\",...}"

abbrev stroke_object : Value
stroke_object = chain (
    ("type", label "stroke_begin")
    ∷ ("room", number 7)
    ∷ ("color", number 2)
    ∷ ("thickness", number 1)
    ∷ ("start", chain (("x", number 10) ∷ ("y", number 20) ∷ []))
    ∷ [])

abbrev bad_color_object : Value
bad_color_object = chain (
    ("type", label "stroke_begin")
    ∷ ("room", number 7)
    ∷ ("color", number 256)
    ∷ ("thickness", number 1)
    ∷ ("start", chain (("x", number 10) ∷ ("y", number 20) ∷ []))
    ∷ [])

abbrev small_json : JsonLibrary
small_json = record {
  Json = Value;
  parse = λ line.
      if str_eq line line_of_stroke
      then value stroke_object
      else if str_eq line "bad color"
      then value bad_color_object
      else if str_eq line "{}"
      then value no_fields
      else error "syntax error";
  is_object = is_chain;
  contains = has_key;
  at = look_up;
  get_string = text_of;
  get_u64 = number_of;
  get_u32 = number_of;
  get_float = number_of;
  of_string = label;
  of_u64 = number;
  of_float = number;
  of_bool = λ b. if b then number 1 else number 0;
  array = λ values. no_fields;
  object = chain;
  dump = λ v. some (if has_key v "request" then "{request}" else "{}");
}

abbrev request : ClientMessage
request =
    stroke_begin_request
      (record { room = 7; color = 2; thickness = 1; start = record { x = 10; y = 20 } })

accepted : parse_client_message small_json line_of_stroke ≡ value request
unfolding parse_client_message parse_object parse_typed parse_stroke_begin get_required
    get_required_point read_point
accepted = refl

refused_color :
    parse_client_message small_json "bad color"
    ≡ error (invalid_field_type "color or thickness is out of range")
unfolding parse_client_message parse_object parse_typed parse_stroke_begin get_required
    get_required_point read_point
refused_color = refl

no_type : parse_client_message small_json "{}" ≡ error (missing_field "missing field: type")
unfolding parse_client_message parse_object get_required
no_type = refl

written : serialize_server_message small_json (ok_response "ping" 3) ≡ some "{request}"
unfolding serialize_server_message make_message
written = refl

stroke_object-Describes : Describes small_json stroke_object request
stroke_object-Describes = (
  (refl, refl),
  (refl, refl),
  (refl, refl),
  (refl, refl),
  (refl, refl, (refl, refl), (refl, refl)),
  omega arith,
  omega arith,
)

parse_client_message-Describes_example :
    (o : Value) × (small_json.parse line_of_stroke ≡ value o)
    × (is_chain o ≡ true)
    × Describes small_json o request
parse_client_message-Describes_example =
    parse_client_message-Describes small_json line_of_stroke request accepted

Describes-parse_client_message_example :
    parse_client_message small_json line_of_stroke ≡ value request
Describes-parse_client_message_example =
    Describes-parse_client_message small_json line_of_stroke stroke_object request refl refl
      stroke_object-Describes
