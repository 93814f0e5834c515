-- ===== src/Core/Room/Replay/Joining.antt =====
-- Replicas of core/src/room.cpp that start from the snapshot of a join.
use clear_space.Prelude.{
  ℕ, ◌*◌, ◌≡◌, refl, ◌∙◌, inl, inr, true, false, Option, none, some, List, [], ◌∷◌, arith, ◌==◌,
  Bool-cases, length, incr64,
}
use clear_space.Prelude.Map.{find}
use clear_space.Prelude.Members.{contains, contains-insert, contains-remove}
use clear_space.Core.Types.{
  ClientId, TimePoint, EventPayload, stroke_begin, stroke_point, stroke_end, cursor_move, clear,
  member_left_out,
}
use clear_space.Core.Room.{
  Room, Op, joins, leaves, applies, last_seq, end_active, forget, join, leave, apply_stroke_begin,
  apply_stroke_point, apply_stroke_end, apply_cursor_move, apply_clear, apply_event, apply,
  ensure_member, step, run,
}
use clear_space.Core.Room.Invariant.{Inv, HasRoom, join-Inv}
use clear_space.Core.Room.Preservation.{step-Inv, ended-Inv, forget-Inv}
use clear_space.Core.Room.Counters.{step_seq}
use clear_space.Core.Room.Broadcast.{addressed, sent, addressed-append}
use clear_space.Core.Room.Replay.{
  follow_payload, follow, view, actor, FromOthers, run_sent, of_snapshot,
}
use clear_space.Core.Room.Replay.Observer.{
  ended-Told, Told, apply-Told, follow-append, follow-broadcast,
}

leave_keeps_member :
    (r : Room) (client c : ClientId) (o : Option ℕ)
    → contains r.members c ≡ true
    → (c == client) ≡ false
    → contains (forget (end_active r client o).0 client).members c ≡ true
unfolding end_active forget
leave_keeps_member r client c none m other = ground (arith, contains-remove r.members client c)
leave_keeps_member r client c (some sid) m other =
    ground (arith, contains-remove r.members client c)

module _ (r : Room) (client c : ClientId) (v : Inv r) (h : HasRoom r 2)
    (m : contains r.members c ≡ true) (other : (c == client) ≡ false) where
  leave-Told : Told r client c v (omega arith) m other (leave r client)
  unfolding leave forget follow_payload
  leave-Told = elim (Bool-cases (contains r.members client)) [
    | inr is ↦ rw is (unfold addressed follow in refl)
    | inl is ↦
        let o = find r.active_stroke_by_client client in
        let (v', h', idle) = ended-Inv r client o v h refl in
        let (r1, es) = end_active r client o in
        let r2 = forget r1 client in
        let r3 : Room = record r2 { next_seq = incr64 r2.next_seq } in
        rw (is, addressed-append c es)
          (follow-append _ _ _ _ (ended-Told r client c v (omega arith) m other o refl)
            ∙ follow-broadcast r1 r2 r3 client c (member_left_out client)
                (forget-Inv r1 client v' idle).present.unique v'.started h'
                (leave_keeps_member r client c o m other) other refl refl)
  ]

event_members :
    (r : Room) (now : TimePoint) (client : ClientId) (ev : EventPayload)
    → (apply_event r now client ev).0.members ≡ r.members
unfolding apply_event
event_members r now client (stroke_begin c t p) = unfold apply_stroke_begin in ground arith
event_members r now client (stroke_point p) = unfold apply_stroke_point in ground arith
event_members r now client stroke_end = unfold apply_stroke_end in ground arith
event_members r now client (cursor_move p) = unfold apply_cursor_move in ground arith
event_members r now client clear = unfold apply_clear in ground arith

module _ (c : ClientId) where
  keeps_member :
      (r : Room) (op : Op)
      → contains r.members c ≡ true
      → (c == actor op) ≡ false
      → contains (step r op).0.members c ≡ true
  unfolding step
  keeps_member r (joins client) m other =
      unfold join in ground (arith, contains-insert r.members client c)
  keeps_member r (leaves client) m other =
      unfold leave in
      ground (arith, leave_keeps_member r client c (find r.active_stroke_by_client client))
  keeps_member r (applies now client ev) m other =
      unfold apply ensure_member in ground (arith, event_members r now client ev)

  -- One operation of another client: the events that it sends to `c` change the view of `c` as the
  -- operation changes the board.
  step-Told :
      (r : Room) (op : Op)
      → Inv r
      → HasRoom r 2
      → contains r.members c ≡ true
      → (c == actor op) ≡ false
      → follow (view r) (addressed c (sent (step r op).1)) ≡ some (view (step r op).0)
  unfolding step
  step-Told r (joins client) v h m other = unfold addressed follow view last_seq join in refl
  step-Told r (leaves client) v h m other = leave-Told r client c v h m other
  step-Told r (applies now client ev) v h m other =
      apply-Told r client c v (omega arith) m other now ev

  -- Operations of other clients, in any order.
  pub run-Told :
      (r : Room) (ops : List Op)
      → Inv r
      → HasRoom r (2 * length ops)
      → contains r.members c ≡ true
      → FromOthers c ops
      → follow (view r) (addressed c (run_sent r ops)) ≡ some (view (run r ops))
  unfolding run run_sent
  run-Told r [] v h m o = unfold addressed follow in refl
  run-Told r (op ∷ ops) v h m o = rw (addressed-append c (sent (step r op).1)) (
      follow-append _ _ _ _ (step-Told r op v (omega arith) m o.0)
      ∙ run-Told (step r op).0 ops (step-Inv r op v (omega arith))
          (step_seq r op (2 * length ops) (omega arith)) (keeps_member r op m o.0) o.1)

  -- A client that joins a room, takes the snapshot and follows the events addressed to it finds no gap
  -- in their numbers and no unknown stroke, and shows the board of the server, whatever the other
  -- clients do meanwhile, as long as the sequence counter does not wrap.
  pub follow-join :
      (r : Room) (ops : List Op)
      → Inv r
      → HasRoom r (2 * length ops)
      → FromOthers c ops
      → follow (of_snapshot (join r c).1) (addressed c (run_sent (join r c).0 ops))
        ≡ some (view (run (join r c).0 ops))
  unfolding of_snapshot view join
  follow-join r ops v h o =
      run-Told (join r c).0 ops (join-Inv r c v) h (ground (arith, contains-insert r.members c c)) o
