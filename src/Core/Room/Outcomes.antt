-- ===== src/Core/Room/Outcomes.antt =====
-- When a room refuses an event, and that a refusal changes nothing.
use clear_space.Prelude.{
  ℕ, ◌≡◌, refl, inl, inr, Bool, true, false, Option, none, some, arith, if◌then◌else◌, Bool-cases,
}
use clear_space.Prelude.Map.{find}
use clear_space.Prelude.Members.{contains}
use clear_space.Core.Types.{
  ClientId, TimePoint, EventPayload, stroke_begin, stroke_point, stroke_end, cursor_move, clear,
  Error, not_in_room, protocol_violation, value, error,
}
use clear_space.Core.Room.{
  Room, Events, Op, joins, leaves, applies, leave, apply_stroke_begin, apply_stroke_point,
  apply_stroke_end, apply_cursor_move, apply_clear, apply_event, apply, ensure_member, step,
}
use clear_space.Core.Room.Invariant.{Inv, active_indexed}

-- The error of an event, from the client's membership and whether it has a stroke in progress alone.
pub refusal : Bool → Bool → EventPayload → Option Error
refusal false drawing ev = some not_in_room
refusal true true (stroke_begin c t p) = some (protocol_violation "stroke already active")
refusal true false (stroke_point p) = some (protocol_violation "stroke point without begin")
refusal true false stroke_end = some (protocol_violation "stroke end without begin")
refusal true drawing ev = none

abbrev pub is_some {ℓ} : {A : Type ℓ} → Option A → Bool
is_some none = false
is_some (some a) = true

abbrev pub error_of : Events → Option Error
error_of (value es) = none
error_of (error e) = some e

module _ (r : Room) (client : ClientId) (v : Inv r) where
  abbrev Refused : Bool → Bool → EventPayload → Room × Events → Type 0
  Refused member drawing ev o = error_of o.1 ≡ refusal member drawing ev

  event-Refused :
      (now : TimePoint) (ev : EventPayload) (o : Option ℕ)
      → find r.active_stroke_by_client client ≡ o
      → Refused true (is_some o) ev (apply_event r now client ev)
  unfolding apply_event refusal
  event-Refused now (stroke_begin c t p) none e =
      unfold apply_stroke_begin in rw (e, apply_stroke_begin)
  event-Refused now (stroke_begin c t p) (some sid) e =
      unfold apply_stroke_begin in rw (e, apply_stroke_begin)
  event-Refused now (stroke_point p) none e =
      unfold apply_stroke_point in rw (e, apply_stroke_point)
  event-Refused now (stroke_point p) (some sid) e =
      let (i, ei) = active_indexed r client sid v e in
      unfold apply_stroke_point in rw (e, ei, apply_stroke_point)
  event-Refused now stroke_end none e = unfold apply_stroke_end in rw (e, apply_stroke_end)
  event-Refused now stroke_end (some sid) e =
      let (i, ei) = active_indexed r client sid v e in
      unfold apply_stroke_end in rw (e, ei, apply_stroke_end)
  event-Refused now (cursor_move p) none e = unfold apply_cursor_move in ground arith
  event-Refused now (cursor_move p) (some sid) e = unfold apply_cursor_move in ground arith
  event-Refused now clear none e = unfold apply_clear in refl
  event-Refused now clear (some sid) e = unfold apply_clear in refl

  -- An event is refused exactly as its client's membership and its stroke in progress say: the error
  -- "unknown stroke id" never occurs.
  pub apply-refusal :
      (now : TimePoint) (ev : EventPayload)
      → error_of (apply r now client ev).1
        ≡ refusal (contains r.members client) (is_some (find r.active_stroke_by_client client)) ev
  unfolding apply ensure_member refusal
  apply-refusal now ev = elim (Bool-cases (contains r.members client)) [
    | inl m ↦ rw (m, apply) (event-Refused now ev _ refl)
    | inr m ↦ rw (m, apply)
  ]

  -- `leave` fails exactly for a client that is no member.
  leave-refusal :
      error_of (leave r client).1 ≡ (if contains r.members client then none else some not_in_room)
  unfolding leave
  leave-refusal = ground arith

event_unchanged :
    (r : Room) (now : TimePoint) (client : ClientId) (ev : EventPayload) (e : Error)
    → (apply_event r now client ev).1 ≡ error e
    → (apply_event r now client ev).0 ≡ r
unfolding apply_event
event_unchanged r now client (stroke_begin c t p) e h = unfold apply_stroke_begin in ground arith
event_unchanged r now client (stroke_point p) e h = unfold apply_stroke_point in ground arith
event_unchanged r now client stroke_end e h = unfold apply_stroke_end in ground arith
event_unchanged r now client (cursor_move p) e h = unfold apply_cursor_move in ground arith
event_unchanged r now client clear e h = unfold apply_clear in ground arith

-- An operation that returns an error leaves the room as it was.
pub step_unchanged : (r : Room) (op : Op) (e : Error) → (step r op).1 ≡ error e → (step r op).0 ≡ r
unfolding step
step_unchanged r (joins client) e h = absurd (cc)
step_unchanged r (leaves client) e h = unfold leave in ground arith
step_unchanged r (applies now client ev) e h =
    unfold apply ensure_member in ground (arith, event_unchanged r now client ev e)
