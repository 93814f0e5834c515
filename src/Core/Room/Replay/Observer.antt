-- ===== src/Core/Room/Replay/Observer.antt =====
-- A replica that follows the events sent to its client shows the board of the server.
use clear_space.Prelude.{
  ℕ, zero, suc, ◌<◌, ◌≡◌, refl, ap, inl, inr, true, false, Option, none, some, List, [], ◌∷◌, ◌++◌,
  arith, ◌==◌, Bool-cases, Option-cases, get_elem?, modify, incr64, incr64-eq,
}
use clear_space.Prelude.Map.{find}
use clear_space.Prelude.Members.{contains, IsUnique}
use clear_space.Core.Types.{
  ClientId, TimePoint, Point, Color, Thickness, Stroke, BoardState, EventPayload, stroke_begin,
  stroke_point, stroke_end, cursor_move, clear, ServerEventPayload, OutgoingEvent,
}
use clear_space.Core.Room.{
  Room, Events, last_seq, finish, add_point, broadcast, end_active, finish_indexed,
  apply_stroke_begin, apply_stroke_point, apply_stroke_end, apply_cursor_move, apply_clear,
  apply_event, apply, ensure_member, too_soon,
}
use clear_space.Core.Room.Invariant.{Inv, HasRoom, active_indexed}
use clear_space.Core.Room.Broadcast.{addressed, sent, addressed-broadcast}
use clear_space.Core.Room.Replay.{Replica, with_last, change_stroke, follow_payload, follow, view}

change_stroke-modify :
    (xs : List Stroke) (i : ℕ) (s : Stroke) (f : Stroke → Stroke)
    → get_elem? xs i ≡ some s
    → ((j : ℕ) (t : Stroke) → get_elem? xs j ≡ some t → t.id ≡ s.id → j ≡ i)
    → change_stroke s.id f xs ≡ some (modify xs i f)
unfolding change_stroke
change_stroke-modify [] i s f h alone = absurd (cc)
change_stroke-modify (x ∷ xs) zero s f h alone =
    ground (arith, ap (λ (z : Stroke). z.id) {x = x} {y = s})
change_stroke-modify (x ∷ xs) (suc i) s f h alone = ground (
  arith,
  alone zero x refl,
  change_stroke-modify xs i s f h (λ j t e same. omega (arith, alone (suc j) t e same)),
)

-- The replica finds an active stroke by its id where the server finds it by its index.
change_active :
    (r : Room) (client sid i : ℕ) (f : Stroke → Stroke)
    → Inv r
    → find r.active_stroke_by_client client ≡ some sid
    → find r.stroke_index_by_id sid ≡ some i
    → change_stroke sid f r.board.strokes ≡ some (modify r.board.strokes i f)
change_active r client sid i f v e ei =
    let (s, es, same) = v.indexed.indexed sid i ei in
    rw (← same) (
      change_stroke-modify r.board.strokes i s f es
        λ j t at eq. ground (arith, v.indexed.found j t at, ei))

-- One event that is the next of the sequence.
follow_one :
    (r : Room) (room c : ℕ) (p : ServerEventPayload) (b : BoardState)
    → 0 < r.next_seq
    → follow_payload r.board p ≡ some b
    → follow (view r) (record { room = room; to = c; seq = r.next_seq; payload = p } ∷ [])
      ≡ some (record { last = r.next_seq; board = b })
unfolding follow view last_seq
follow_one r room c p b pos e = ground arith

view_next :
    (r r' : Room)
    → HasRoom r 1
    → r'.next_seq ≡ incr64 r.next_seq
    → view r' ≡ record { last = r.next_seq; board = r'.board }
unfolding view last_seq
view_next r r' h e = rw (e, incr64-eq r.next_seq h) (ground arith)

pub follow-append :
    (v : Replica) (es fs : List OutgoingEvent) (v' : Replica)
    → follow v es ≡ some v'
    → follow v (es ++ fs) ≡ follow v' fs
unfolding follow
follow-append v [] fs v' h = ground arith
follow-append v (e ∷ es) fs v' h =
    let next = with_last e.seq (follow_payload v.board e.payload) in
    elim (Option-cases next) [
      | inl n ↦ ground arith
      | inr (w, n) ↦ ground (arith, follow-append w es fs v')
    ]

-- A broadcast, by a room `q`, that tells the change of the board from `r` to `r'`.
pub follow-broadcast :
    (r q r' : Room) (client c : ClientId) (p : ServerEventPayload)
    → IsUnique q.members
    → 0 < r.next_seq
    → HasRoom r 1
    → contains q.members c ≡ true
    → (c == client) ≡ false
    → r'.next_seq ≡ incr64 r.next_seq
    → follow_payload r.board p ≡ some r'.board
    → follow (view r) (addressed c (broadcast q client r.next_seq p)) ≡ some (view r')
follow-broadcast r q r' client c p u pos h m other e told =
    rw (addressed-broadcast q client r.next_seq p c u, m, other, view_next r r' h e)
      (follow_one r q.id c p r'.board pos told)

module _ (r : Room) (client c : ClientId) (v : Inv r) (h : HasRoom r 1)
    (m : contains r.members c ≡ true) (other : (c == client) ≡ false) where
  abbrev pub Told : Room × Events → Type 0
  Told o = follow (view r) (addressed c (sent o.1)) ≡ some (view o.0)

  begin-Told : (k : Color) (t : Thickness) (p : Point) → Told (apply_stroke_begin r client k t p)
  unfolding apply_stroke_begin
  begin-Told k t p = elim (Option-cases (find r.active_stroke_by_client client)) [
    | inr (sid, e) ↦ rw (e, apply_stroke_begin) (unfold addressed follow in refl)
    | inl e ↦
        rw (e, apply_stroke_begin)
          (follow-broadcast r r _ client c _ v.present.unique v.started h m other refl
            (unfold follow_payload in refl))
  ]

  point-Told : (p : Point) → Told (apply_stroke_point r client p)
  unfolding apply_stroke_point
  point-Told p = elim (Option-cases (find r.active_stroke_by_client client)) [
    | inl e ↦ rw (e, apply_stroke_point) (unfold addressed follow in refl)
    | inr (sid, e) ↦
        let (i, ei) = active_indexed r client sid v e in
        rw (e, ei, apply_stroke_point)
          (follow-broadcast r r _ client c _ v.present.unique v.started h m other refl
            (unfold follow_payload in rw (change_active r client sid i (add_point p) v e ei)))
  ]

  end-Told : Told (apply_stroke_end r client)
  unfolding apply_stroke_end
  end-Told = elim (Option-cases (find r.active_stroke_by_client client)) [
    | inl e ↦ rw (e, apply_stroke_end) (unfold addressed follow in refl)
    | inr (sid, e) ↦
        let (i, ei) = active_indexed r client sid v e in
        rw (e, ei, apply_stroke_end)
          (follow-broadcast r r _ client c _ v.present.unique v.started h m other refl
            (unfold follow_payload in rw (change_active r client sid i finish v e ei)))
  ]

  move-Told : (now : TimePoint) (p : Point) → Told (apply_cursor_move r now client p)
  unfolding apply_cursor_move
  move-Told now p = elim (Bool-cases (too_soon now (find r.last_cursor_update client))) [
    | inl e ↦ rw e (unfold addressed follow in refl)
    | inr e ↦ rw e (
        follow-broadcast r r _ client c _ v.present.unique v.started h m other refl
          (unfold follow_payload in refl))
  ]

  clear-Told : Told (apply_clear r client)
  unfolding apply_clear
  clear-Told =
      follow-broadcast r r _ client c _ v.present.unique v.started h m other refl
        (unfold follow_payload in refl)

  event-Told : (now : TimePoint) (ev : EventPayload) → Told (apply_event r now client ev)
  unfolding apply_event
  event-Told now (stroke_begin k t p) = begin-Told k t p
  event-Told now (stroke_point p) = point-Told p
  event-Told now stroke_end = end-Told
  event-Told now (cursor_move p) = move-Told now p
  event-Told now clear = clear-Told

  pub apply-Told : (now : TimePoint) (ev : EventPayload) → Told (apply r now client ev)
  unfolding apply ensure_member
  apply-Told now ev = elim (Bool-cases (contains r.members client)) [
    | inl is ↦ rw (is, apply) (event-Told now ev)
    | inr is ↦ rw (is, apply) (unfold addressed follow in refl)
  ]

  pub ended-Told :
      (o : Option ℕ)
      → find r.active_stroke_by_client client ≡ o
      → follow (view r) (addressed c (end_active r client o).1)
        ≡ some (view (end_active r client o).0)
  unfolding end_active
  ended-Told none e = unfold addressed follow in refl
  ended-Told (some sid) e =
      let (i, ei) = active_indexed r client sid v e in
      rw (ei, finish_indexed)
        (follow-broadcast r r _ client c _ v.present.unique v.started h m other refl
          (unfold follow_payload in rw (change_active r client sid i finish v e ei)))
