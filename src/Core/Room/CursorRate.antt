-- ===== src/Core/Room/CursorRate.antt =====
-- The rate limit on cursor updates, `config::kCursorMinInterval`.
use mathlib.Core.Path.{subst}
use clear_space.Prelude.{
  ◌+◌, ◌≤◌, ◌≡◌, refl, inl, inr, Bool, true, not, ◌&&◌, Option, none, some, List, [], ◌∷◌, arith,
  ◌==◌, if◌then◌else◌, Bool-cases, Option-cases, All, incr64-ne,
}
use clear_space.Prelude.Map.{find, find-assign}
use clear_space.Prelude.Members.{contains}
use clear_space.Core.Types.{
  ClientId, TimePoint, cursor_min_interval, Point, EventPayload, stroke_begin, stroke_point,
  stroke_end, cursor_move, clear,
}
use clear_space.Core.Room.{
  Room, Op, joins, leaves, applies, join, apply_stroke_begin, apply_stroke_point, apply_stroke_end,
  apply_cursor_move, apply_clear, apply_event, apply, ensure_member, step,
}
use clear_space.Core.Room.Departure.{leave-IsKept}

-- The time of an operation that is a cursor update of `c` and that the room takes, which shows by the
-- number of the sequence that it uses.
pub taken_at : ClientId → Room → Op → Option TimePoint
taken_at c r (applies now client (cursor_move p)) =
    if client == c && not ((apply r now client (cursor_move p)).0.next_seq == r.next_seq)
    then some now
    else none
taken_at c r _ = none

abbrev prepend {ℓ} : {A : Type ℓ} → Option A → List A → List A
prepend none xs = xs
prepend (some x) xs = x ∷ xs

-- The times of all cursor updates of `c` that the room takes in a run.
unfoldable pub taken : ClientId → Room → List Op → List TimePoint
unfolding taken_at
taken c r [] = []
taken c r (op ∷ ops) = prepend (taken_at c r op) (taken c (step r op).0 ops)

-- Each time lies at least the interval after the one before it, the first after `last`.
abbrev pub IsSpaced : Option TimePoint → List TimePoint → Type 0
IsSpaced last [] = Unit {0}
IsSpaced none (t ∷ ts) = IsSpaced (some t) ts
IsSpaced (some last) (t ∷ ts) = (last + cursor_min_interval ≤ t) × IsSpaced (some t) ts

-- Operations among which `c` does not leave.
abbrev pub stays : ClientId → Op → Bool
stays c (leaves client) = not (client == c)
stays c _ = true

abbrev pub Stays : ClientId → List Op → Type 0
Stays c = All (λ op. stays c op ≡ true)

-- What one operation does to the time that the room keeps for `c`.
abbrev Updated : Option TimePoint → Option TimePoint → Option TimePoint → Type 0
Updated before none after = after ≡ before
Updated none (some t) after = after ≡ some t
Updated (some last) (some t) after = (after ≡ some t) × (last + cursor_min_interval ≤ t)

move-Updated :
    (c : ClientId) (r : Room) (now : TimePoint) (client : ClientId) (p : Point)
    → Updated
        (find r.last_cursor_update c)
        (taken_at c r (applies now client (cursor_move p)))
        (find (apply r now client (cursor_move p)).0.last_cursor_update c)
unfolding taken_at apply ensure_member apply_event apply_cursor_move
move-Updated c r now client p = elim (Bool-cases (contains r.members client)) [
  | inr m ↦ rw (m, apply) (ground arith)
  | inl m ↦
      rw (m, apply)
        (elim (Option-cases (find r.last_cursor_update c)) [
          | inl e ↦
              ground (arith, find-assign r.last_cursor_update client now c, incr64-ne r.next_seq)
          | inr (l, e) ↦
              ground (arith, find-assign r.last_cursor_update client now c, incr64-ne r.next_seq)
        ])
]

event-Updated :
    (c : ClientId) (r : Room) (now : TimePoint) (client : ClientId) (ev : EventPayload)
    → Updated
        (find r.last_cursor_update c)
        (taken_at c r (applies now client ev))
        (find (apply r now client ev).0.last_cursor_update c)
unfolding taken_at apply ensure_member apply_event
event-Updated c r now client (stroke_begin k t p) = unfold apply_stroke_begin in ground arith
event-Updated c r now client (stroke_point p) = unfold apply_stroke_point in ground arith
event-Updated c r now client stroke_end = unfold apply_stroke_end in ground arith
event-Updated c r now client (cursor_move p) = move-Updated c r now client p
event-Updated c r now client clear = unfold apply_clear in ground arith

step-Updated :
    (c : ClientId) (r : Room) (op : Op)
    → stays c op ≡ true
    → Updated
        (find r.last_cursor_update c)
        (taken_at c r op)
        (find (step r op).0.last_cursor_update c)
unfolding taken_at step
step-Updated c r (joins client) h = unfold join in refl
step-Updated c r (leaves client) h = (leave-IsKept r client c (ground arith)).update
step-Updated c r (applies now client ev) h = event-Updated c r now client ev

spaced :
    (before took after : Option TimePoint) (ts : List TimePoint)
    → Updated before took after
    → IsSpaced after ts
    → IsSpaced before (prepend took ts)
spaced before none after ts u s = subst (λ o. IsSpaced o ts) u s
spaced none (some t) after ts u s = subst (λ o. IsSpaced o ts) u s
spaced (some last) (some t) after ts u s = (u.1, subst (λ o. IsSpaced o ts) u.0 s)

-- However often a client that stays in the room sends its cursor, the updates that the room takes, and
-- so the ones that it sends on, lie at least 40 milliseconds apart.
pub taken-IsSpaced :
    (c : ClientId) (r : Room) (ops : List Op)
    → Stays c ops
    → IsSpaced (find r.last_cursor_update c) (taken c r ops)
unfolding taken
taken-IsSpaced c r [] h = tt
taken-IsSpaced c r (op ∷ ops) h =
    spaced (find r.last_cursor_update c) (taken_at c r op) _ _ (step-Updated c r op h.0)
      (taken-IsSpaced c (step r op).0 ops h.1)
