-- ===== src/Transport/JsonProtocol/Fields.antt =====
-- The fields of a JSON object, and the requests that it describes by them, for
-- transport/src/json_protocol.cpp.
use clear_space.Prelude.{
  ◌≤◌, ◌≡◌, refl, ◌⊎◌, inl, inr, String, Bool, true, false, Option, some, if◌then◌else◌, arith,
  Option-cases,
}
use clear_space.Core.Types.{Expected, value, error}
use clear_space.Transport.Json.{JsonLibrary}
use clear_space.Transport.Messages.{
  PointDto, ClientMessage, ping_request, create_room_request, join_room_request, leave_room_request,
  stroke_begin_request, stroke_point_request, stroke_end_request, cursor_move_request,
  clear_request,
}
use clear_space.Transport.JsonProtocol.{
  ProtocolError, get_required, get_required_point, read_point, ◌>>=◌,
}

pub >>=-eq-value {ℓ κ} :
    {A : Type ℓ} {B : Type κ} (m : Expected A ProtocolError) (f : A → Expected B ProtocolError)
    {b : B}
    → (m >>= f) ≡ value b
    → (a : A) × (m ≡ value a) × (f a ≡ value b)
>>=-eq-value (value a) f h = (a, refl, h)
>>=-eq-value (error e) f h = absurd (cc)

pub if_cases {ℓ} :
    {A : Type ℓ} (b : Bool) (x y z : A)
    → (if b then x else y) ≡ z
    → ((b ≡ true) × (x ≡ z)) ⊎ ((b ≡ false) × (y ≡ z))
if_cases true x y z h = inl (refl, h)
if_cases false x y z h = inr (refl, h)

module _ (lib : JsonLibrary) where
  open lib use {Json, parse, is_object, contains, at, get_string, get_u64, get_u32, get_float}

  -- The object has a field that the library converts to `v`.
  abbrev pub Has : {A : Type 0} → (Json → Option A) → Json → String → A → Type 0
  Has get o key v = (contains o key ≡ true) × (get (at o key) ≡ some v)

  abbrev pub HasPoint : Json → String → PointDto → Type 0
  HasPoint o key p =
      (contains o key ≡ true)
      × (is_object (at o key) ≡ true)
      × Has get_float (at o key) "x" p.x
      × Has get_float (at o key) "y" p.y

  -- The object is this request.
  abbrev pub Describes : Json → ClientMessage → Type 0
  Describes o ping_request = Has get_string o "type" "ping"
  Describes o create_room_request = Has get_string o "type" "create_room"
  Describes o (join_room_request room) =
      Has get_string o "type" "join_room" × Has get_u64 o "room" room
  Describes o (leave_room_request room) =
      Has get_string o "type" "leave_room" × Has get_u64 o "room" room
  Describes o (stroke_begin_request r) =
      Has get_string o "type" "stroke_begin"
      × Has get_u64 o "room" r.room
      × Has get_u32 o "color" r.color
      × Has get_u32 o "thickness" r.thickness
      × HasPoint o "start" r.start
      × (r.color ≤ 255)
      × (r.thickness ≤ 255)
  Describes o (stroke_point_request room p) =
      Has get_string o "type" "stroke_point" × Has get_u64 o "room" room × HasPoint o "point" p
  Describes o (stroke_end_request room) =
      Has get_string o "type" "stroke_end" × Has get_u64 o "room" room
  Describes o (cursor_move_request room p) =
      Has get_string o "type" "cursor_move" × Has get_u64 o "room" room × HasPoint o "point" p
  Describes o (clear_request room) = Has get_string o "type" "clear" × Has get_u64 o "room" room

  pub get_required-Has :
      {A : Type 0} (get : Json → Option A) (o : Json) (key : String) (v : A)
      → get_required lib get o key ≡ value v
      → Has get o key v
  unfolding get_required
  get_required-Has get o key v h = elim (Option-cases (get (at o key))) [
    | inl e ↦ ground arith
    | inr (w, e) ↦ ground arith
  ]

  pub Has-get_required :
      {A : Type 0} (get : Json → Option A) (o : Json) (key : String) (v : A)
      → Has get o key v
      → get_required lib get o key ≡ value v
  unfolding get_required
  Has-get_required get o key v h = rw (h.0, h.1)

  pub get_required_point-HasPoint :
      (o : Json) (key : String) (p : PointDto)
      → get_required_point lib o key ≡ value p
      → HasPoint o key p
  unfolding get_required_point read_point
  get_required_point-HasPoint o key p h = elim (if_cases (contains o key) _ _ _ h) [
    | inr (_, k) ↦ absurd (cc)
    | inl (there, k) ↦ elim (if_cases (is_object (at o key)) _ _ _ k) [
      | inr (_, k) ↦ absurd (cc)
      | inl (is_o, k) ↦
          let (x, ex, k1) = >>=-eq-value (get_required lib get_float (at o key) "x") _ k in
          let (y, ey, k2) = >>=-eq-value (get_required lib get_float (at o key) "y") _ k1 in
          let hx = get_required-Has get_float (at o key) "x" x ex in
          let hy = get_required-Has get_float (at o key) "y" y ey in
          (there, is_o, (hx.0, ground arith), (hy.0, ground arith))
    ]
  ]

  pub HasPoint-get_required_point :
      (o : Json) (key : String) (p : PointDto)
      → HasPoint o key p
      → get_required_point lib o key ≡ value p
  unfolding get_required_point read_point
  HasPoint-get_required_point o key p h = rw (
    h.0,
    h.1,
    Has-get_required get_float (at o key) "x" p.x h.2,
    Has-get_required get_float (at o key) "y" p.y h.3,
  )
