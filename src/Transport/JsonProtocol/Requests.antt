-- ===== src/Transport/JsonProtocol/Requests.antt =====
-- What `parseClientMessage` accepts describes the request that it returns.
use mathlib.Core.Path.{subst}
use Prim.Native.String.{◌++◌ as text_append}
use text.Mathlib.Text.{◌==◌ as str_eq}
use text.Mathlib.TextEquality.{eq_iff}
use clear_space.Prelude.{
  ℕ, ◌%◌, ◌≤◌, ◌≡◌, refl, inl, inr, String, true, ◌||◌, ltb, if◌then◌else◌, arith,
}
use clear_space.Core.Types.{Expected, value, error}
use clear_space.Transport.Json.{JsonLibrary}
use clear_space.Transport.Messages.{
  PointDto, StrokeBeginRequest, ClientMessage, ping_request, create_room_request, join_room_request,
  leave_room_request, stroke_begin_request, stroke_point_request, stroke_end_request,
  cursor_move_request, clear_request,
}
use clear_space.Transport.JsonProtocol.{
  unknown_message_type, invalid_json, get_required, get_required_point, parse_stroke_begin,
  parse_with_room, parse_with_point, parse_typed, parse_object, parse_client_message,
}
use clear_space.Transport.JsonProtocol.Fields.{
  >>=-eq-value, if_cases, Has, HasPoint, Describes, get_required-Has, get_required_point-HasPoint,
}

module _ (lib : JsonLibrary) where
  open lib use {Json, parse, is_object, contains, at, get_string, get_u64, get_u32, get_float}

  with_room_inv :
      (make : ℕ → ClientMessage) (o : Json) (m : ClientMessage)
      → parse_with_room lib make o ≡ value m
      → (room : ℕ) × Has lib get_u64 o "room" room × (make room ≡ m)
  unfolding parse_with_room
  with_room_inv make o m h =
      let (room, e, k) = >>=-eq-value (get_required lib get_u64 o "room") _ h in
      (room, get_required-Has lib get_u64 o "room" room e, ground arith)

  with_point_inv :
      (make : ℕ → PointDto → ClientMessage) (o : Json) (m : ClientMessage)
      → parse_with_point lib make o ≡ value m
      → (room : ℕ) × (p : PointDto) × Has lib get_u64 o "room" room
        × HasPoint lib o "point" p
        × (make room p ≡ m)
  unfolding parse_with_point
  with_point_inv make o m h =
      let (room, e, k) = >>=-eq-value (get_required lib get_u64 o "room") _ h in
      let (p, ep, k1) = >>=-eq-value (get_required_point lib o "point") _ k in
      (
        room,
        p,
        get_required-Has lib get_u64 o "room" room e,
        get_required_point-HasPoint lib o "point" p ep,
        ground arith,
      )

  stroke_begin_inv :
      (o : Json) (m : ClientMessage)
      → parse_stroke_begin lib o ≡ value m
      → (r : StrokeBeginRequest) × Has lib get_u64 o "room" r.room
        × Has lib get_u32 o "color" r.color
        × Has lib get_u32 o "thickness" r.thickness
        × HasPoint lib o "start" r.start
        × (r.color ≤ 255)
        × (r.thickness ≤ 255)
        × (stroke_begin_request r ≡ m)
  unfolding parse_stroke_begin
  stroke_begin_inv o m h =
      let (room, e1, k1) = >>=-eq-value (get_required lib get_u64 o "room") _ h in
      let (c, e2, k2) = >>=-eq-value (get_required lib get_u32 o "color") _ k1 in
      let (t, e3, k3) = >>=-eq-value (get_required lib get_u32 o "thickness") _ k2 in
      let (p, e4, k4) = >>=-eq-value (get_required_point lib o "start") _ k3 in
      elim (if_cases (ltb 255 c || ltb 255 t) _ _ _ k4) [
        | inl (_, k) ↦ absurd (cc)
        | inr (small, k) ↦
            let hc : c ≤ 255 = ground arith in
            let ht : t ≤ 255 = ground arith in
            let ec : c % 256 ≡ c = omega arith in
            let et : t % 256 ≡ t = omega arith in
            (
              record { room = room; color = c; thickness = t; start = p },
              get_required-Has lib get_u64 o "room" room e1,
              get_required-Has lib get_u32 o "color" c e2,
              get_required-Has lib get_u32 o "thickness" t e3,
              get_required_point-HasPoint lib o "start" p e4,
              hc,
              ht,
              ground arith,
            )
      ]

  -- A request of type `name`, once the object's type is found to be `type`.
  typed :
      (o : Json) (type name : String)
      → Has lib get_string o "type" type
      → str_eq type name ≡ true
      → Has lib get_string o "type" name
  typed o type name h e = subst (Has lib get_string o "type") ((eq_iff type name).0 e) h

  room_request :
      (make : ℕ → ClientMessage) (o : Json) (m : ClientMessage) (name : String)
      → ((room : ℕ)
          → Has lib get_string o "type" name
          → Has lib get_u64 o "room" room
          → Describes lib o (make room))
      → Has lib get_string o "type" name
      → parse_with_room lib make o ≡ value m
      → Describes lib o m
  room_request make o m name describe h k =
      let (room, has, e) = with_room_inv make o m k in
      subst (Describes lib o) e (describe room h has)

  point_request :
      (make : ℕ → PointDto → ClientMessage) (o : Json) (m : ClientMessage) (name : String)
      → ((room : ℕ) (p : PointDto)
          → Has lib get_string o "type" name
          → Has lib get_u64 o "room" room
          → HasPoint lib o "point" p
          → Describes lib o (make room p))
      → Has lib get_string o "type" name
      → parse_with_point lib make o ≡ value m
      → Describes lib o m
  point_request make o m name describe h k =
      let (room, p, has, point, e) = with_point_inv make o m k in
      subst (Describes lib o) e (describe room p h has point)

  parse_typed-Describes :
      (o : Json) (type : String) (m : ClientMessage)
      → Has lib get_string o "type" type
      → parse_typed lib type o ≡ value m
      → Describes lib o m
  unfolding parse_typed
  parse_typed-Describes o type m h k0 = elim (if_cases (str_eq type "ping") _ _ _ k0) [
    | inl (e, k) ↦
        let em : ping_request ≡ m = ground arith in
        subst (Describes lib o) em (typed o type "ping" h e)
    | inr (_, k1) ↦ elim (if_cases (str_eq type "create_room") _ _ _ k1) [
      | inl (e, k) ↦
          let em : create_room_request ≡ m = ground arith in
          subst (Describes lib o) em (typed o type "create_room" h e)
      | inr (_, k2) ↦ elim (if_cases (str_eq type "join_room") _ _ _ k2) [
        | inl (e, k) ↦
            room_request join_room_request o m "join_room" (λ room t r. (t, r))
              (typed o type "join_room" h e) k
        | inr (_, k3) ↦ elim (if_cases (str_eq type "leave_room") _ _ _ k3) [
          | inl (e, k) ↦
              room_request leave_room_request o m "leave_room" (λ room t r. (t, r))
                (typed o type "leave_room" h e) k
          | inr (_, k4) ↦ drawing k4
        ]
      ]
    ]
  ]
    where
      cursors :
          (if str_eq type "cursor_move"
              then parse_with_point lib cursor_move_request o
              else if str_eq type "clear"
              then parse_with_room lib clear_request o
              else error (unknown_message_type (text_append "unknown message type: " type)))
            ≡ value m
          → Describes lib o m
      cursors k0 = elim (if_cases (str_eq type "cursor_move") _ _ _ k0) [
        | inl (e, k) ↦
            point_request cursor_move_request o m "cursor_move" (λ room p t r q. (t, r, q))
              (typed o type "cursor_move" h e) k
        | inr (_, k1) ↦ elim (if_cases (str_eq type "clear") _ _ _ k1) [
          | inl (e, k) ↦
              room_request clear_request o m "clear" (λ room t r. (t, r)) (typed o type "clear" h e)
                k
          | inr (_, k) ↦ absurd (cc)
        ]
      ]

      drawing :
          (if str_eq type "stroke_begin"
              then parse_stroke_begin lib o
              else if str_eq type "stroke_point"
              then parse_with_point lib stroke_point_request o
              else if str_eq type "stroke_end"
              then parse_with_room lib stroke_end_request o
              else if str_eq type "cursor_move"
              then parse_with_point lib cursor_move_request o
              else if str_eq type "clear"
              then parse_with_room lib clear_request o
              else error (unknown_message_type (text_append "unknown message type: " type)))
            ≡ value m
          → Describes lib o m
      drawing k0 = elim (if_cases (str_eq type "stroke_begin") _ _ _ k0) [
        | inl (e, k) ↦
            let (r, h1, h2, h3, h4, h5, h6, em) = stroke_begin_inv o m k in
            subst (Describes lib o) em (typed o type "stroke_begin" h e, h1, h2, h3, h4, h5, h6)
        | inr (_, k1) ↦ elim (if_cases (str_eq type "stroke_point") _ _ _ k1) [
          | inl (e, k) ↦
              point_request stroke_point_request o m "stroke_point" (λ room p t r q. (t, r, q))
                (typed o type "stroke_point" h e) k
          | inr (_, k2) ↦ elim (if_cases (str_eq type "stroke_end") _ _ _ k2) [
            | inl (e, k) ↦
                room_request stroke_end_request o m "stroke_end" (λ room t r. (t, r))
                  (typed o type "stroke_end" h e) k
            | inr (_, k3) ↦ cursors k3
          ]
        ]
      ]

  -- A line that is accepted is a JSON object that describes the request.
  pub parse_client_message-Describes :
      (line : String) (m : ClientMessage)
      → parse_client_message lib line ≡ value m
      → (o : Json) × (parse line ≡ value o) × (is_object o ≡ true) × Describes lib o m
  unfolding parse_client_message parse_object
  parse_client_message-Describes line m h = described (parse line) refl h
    where
      described :
          (r : Expected Json String)
          → parse line ≡ r
          → (elim r [ error what ↦ error (invalid_json what) | value o ↦ parse_object lib o ])
            ≡ value m
          → (o : Json) × (parse line ≡ value o) × (is_object o ≡ true) × Describes lib o m
      described (error what) e k = absurd (cc)
      described (value o) e k = elim (if_cases (is_object o) _ _ _ k) [
        | inr (_, k1) ↦ absurd (cc)
        | inl (is_o, k1) ↦
            let (type, et, k2) = >>=-eq-value (get_required lib get_string o "type") _ k1 in
            (
              o,
              e,
              is_o,
              parse_typed-Describes o type m (get_required-Has lib get_string o "type" type et) k2,
            )
      ]
