-- ===== src/Core/ServerCore/Returned.antt =====
-- What `handleEvent` of core/src/server_core.cpp has given to the sink once its call has returned.
use clear_space.Prelude.{
  ℕ, ◌≡◌, refl, sym, ap, ◌∙◌, inl, inr, true, Option, some, List, [], ◌∷◌, ==_refl, Option-cases,
}
use clear_space.Core.Types.{RoomId, ClientId, TimePoint, EventPayload, OutgoingEvent, value}
use clear_space.Core.Room.{
  Room, Events, Op, joins, leaves, applies, apply, step, make_persisted_snapshot,
}
use clear_space.Core.RoomManager.{get_room, get_room-some}
use clear_space.Core.ServerCore.{
  ServerCore, SavePiece, create, join_room, leave_room, take_image, hand_over, Call, creates,
  on_room, serve, resume_save, handle_event, should_save, rest_of_event,
}
use clear_space.Core.ServerCore.Invariant.{room_of, serve_room, serve_absent}
use clear_space.Core.ServerCore.Threads.{
  Threads, Turn, calls, resumes, called, resumed, turn, turns,
}
use clear_space.Core.ServerCore.Saving.{taken, turn-cases, turns-cons}
use clear_space.Core.ServerCore.Due.{handed}

some_is : (w w' : Threads) → ◌≡◌ {A = Option Threads} (some w) (some w') → w ≡ w'
some_is w w' e = cc (e)

-- What a call has to save that finished a stroke or cleared the board.
event_rest :
    (c : ServerCore) (a client : ℕ) (now : TimePoint) (ev : EventPayload) (r : Room)
    (es : List OutgoingEvent)
    → room_of c a ≡ some r
    → c.has_sink ≡ true
    → should_save ev ≡ true
    → (apply r now client ev).1 ≡ value es
    → (serve c (on_room a (applies now client ev))).2 ≡ take_image a ∷ []
unfolding serve handle_event rest_of_event
event_rest c a client now ev r es at sink saves ok =
    rw (get_room-some c.rooms a r at, handle_event, ok, rest_of_event, sink, saves)

pub serve_sink : (c : ServerCore) (call : Call) → (serve c call).0.has_sink ≡ c.has_sink
unfolding serve create join_room leave_room handle_event
serve_sink c creates = refl
serve_sink c (on_room a op) = elim (Option-cases (room_of c a)) [
  | inl e ↦ ap (λ (x : ServerCore × Events × List SavePiece). x.0.has_sink) (serve_absent c a op e)
  | inr (r, e) ↦ present op r (get_room-some c.rooms a r e)
]
  where
    present :
        (op : Op) (r : Room)
        → get_room c.rooms a ≡ some (record { key = a; object = r })
        → (serve c (on_room a op)).0.has_sink ≡ c.has_sink
    present (joins client) r e = rw (e, serve, join_room)
    present (leaves client) r e = rw (e, serve, leave_room)
    present (applies now client ev) r e = rw (e, serve, handle_event)

pub turns_sink :
    (w w' : Threads) (xs : List Turn) → turns w xs ≡ some w' → w'.core.has_sink ≡ w.core.has_sink
unfolding turns
turns_sink w w' [] run = ap (λ (v : Threads). v.core.has_sink) (sym (some_is w w' run))
turns_sink w w' (x ∷ xs) run =
    let (w1, first, rest) = turns-cons w w' x xs run in
    turns_sink w1 w' xs rest ∙ elim (turn-cases w w1 x first) [
      | inl (u, call, free, is) ↦
          ap (λ (v : Threads). v.core.has_sink) (sym is) ∙ serve_sink w.core call
      | inr (u, p, ps, now, is) ↦ ap (λ (v : Threads). v.core.has_sink) (sym is)
    ]

abbrev pub event_turns : ℕ → RoomId → TimePoint → ClientId → EventPayload → List Turn
event_turns t a now client ev =
    calls t (on_room a (applies now client ev)) ∷ resumes t ∷ resumes t ∷ []

pub turn_resumes :
    (w : Threads) (t : ℕ) (p : SavePiece)
    → w.rest t ≡ p ∷ []
    → turn w (resumes t) ≡ some (resumed w t [] (resume_save w.core.rooms p))
unfolding turn
turn_resumes w t p e = rw (e, turn)

pub turns_next :
    (w w1 : Threads) (x : Turn) (xs : List Turn)
    → turn w x ≡ some w1
    → turns w (x ∷ xs) ≡ turns w1 xs
unfolding turns
turns_next w w1 x xs e = rw (e, turns)

pub turns_done : (w : Threads) → turns w [] ≡ some w
unfolding turns
turns_done w = refl

-- Undisturbed, such a call returns.
pub event_returns :
    (w : Threads) (t a client : ℕ) (now : TimePoint) (ev : EventPayload) (r : Room)
    (es : List OutgoingEvent)
    → w.rest t ≡ []
    → room_of w.core a ≡ some r
    → w.core.has_sink ≡ true
    → should_save ev ≡ true
    → (apply r now client ev).1 ≡ value es
    → (w' : Threads) × (turns w (event_turns t a now client ev) ≡ some w') × (w'.rest t ≡ [])
unfolding turns turn
event_returns w t a client now ev r es free at sink saves ok =
    let op = applies now client ev in
    let w1 = called w t (serve w.core (on_room a op)) in
    let s = make_persisted_snapshot (step r op).0 in
    let w2 = resumed w1 t [] (hand_over s ∷ [], []) in
    let w3 = resumed w2 t [] ([], s ∷ []) in
    let first : turn w (calls t (on_room a op)) ≡ some w1 = rw (free, turn) in
    let second : turn w1 (resumes t) ≡ some w2 =
      turn_resumes w1 t (take_image a)
        (rw (==_refl t) (event_rest w.core a client now ev r es at sink saves ok))
      ∙ ap (λ x. some (resumed w1 t [] x))
          (taken w1.core a (step r op).0 (serve_room w.core a op r at)) in
    let third : turn w2 (resumes t) ≡ some w3 =
      turn_resumes w2 t (hand_over s) (rw (==_refl t))
      ∙ ap (λ x. some (resumed w2 t [] x)) (handed w2.core s) in
    (
      w3,
      turns_next w w1 (calls t (on_room a op)) (resumes t ∷ resumes t ∷ []) first
          ∙ turns_next w1 w2 (resumes t) (resumes t ∷ []) second
          ∙ turns_next w2 w3 (resumes t) [] third
          ∙ turns_done w3,
      rw (==_refl t) refl,
    )
