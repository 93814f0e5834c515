-- ===== src/Core/Room/Departure.antt =====
-- What remains of a client that leaves a room.
use clear_space.Prelude.{
  ◌∙◌, ◌∷◌, ℕ, ◌≡◌, refl, ap, inl, inr, true, false, Option, none, some, [], arith, ◌==◌,
  Bool-cases, Option-cases, get_elem?,
}
use clear_space.Prelude.Map.{find, find-erase}
use clear_space.Prelude.Members.{remove, contains, contains-nil, contains-remove}
use clear_space.Core.Types.{ClientId, Stroke}
use clear_space.Core.Room.{Room, end_active, forget, leave}
use clear_space.Core.Room.Outcomes.{error_of}
use clear_space.Core.Room.Invariant.{Inv, HasRoom}
use clear_space.Core.Room.Preservation.{ended-Inv}

-- Nothing in the room speaks of the client, but the finished strokes that it drew.
pub record IsGone (r : Room) (client : ClientId) : Type 0 where
  pub member : contains r.members client ≡ false
  pub cursor : find r.board.cursors client ≡ none
  pub update : find r.last_cursor_update client ≡ none
  pub active : find r.active_stroke_by_client client ≡ none
  pub drawn :
      (i : ℕ) (s : Stroke)
      → get_elem? r.board.strokes i ≡ some s
      → s.author ≡ client
      → s.finished ≡ true

-- What the room keeps for another client is as before.
pub record IsKept (q r : Room) (c : ClientId) : Type 0 where
  pub member : contains r.members c ≡ contains q.members c
  pub cursor : find r.board.cursors c ≡ find q.board.cursors c
  pub update : find r.last_cursor_update c ≡ find q.last_cursor_update c
  pub active : find r.active_stroke_by_client c ≡ find q.active_stroke_by_client c

-- In a room with the invariant a client with no stroke in progress has finished all its strokes.
pub idle_finished :
    (r : Room) (client : ClientId) (i : ℕ) (s : Stroke)
    → Inv r
    → find r.active_stroke_by_client client ≡ none
    → get_elem? r.board.strokes i ≡ some s
    → s.author ≡ client
    → s.finished ≡ true
idle_finished r client i s v idle h mine = elim (Bool-cases s.finished) [
  | inl done ↦ done
  | inr not_yet ↦
      absurd (cc (v.active.owned i s h not_yet, ap (find r.active_stroke_by_client) mine))
]

-- After a successful `leave` the room has forgotten the client and finished its strokes.
pub leave-IsGone :
    (r : Room) (client : ClientId)
    → Inv r
    → HasRoom r 2
    → contains r.members client ≡ true
    → IsGone (leave r client).0 client
leave-IsGone r client v h m =
    let (v', h', idle) = ended-Inv r client (find r.active_stroke_by_client client) v h refl in
    let r1 = (end_active r client (find r.active_stroke_by_client client)).0 in
    unfold leave forget in
    rw m (record {
      member = ground (arith, contains-remove r1.members client client);
      cursor = ground (arith, find-erase r1.board.cursors client client);
      update = ground (arith, find-erase r1.last_cursor_update client client);
      active = idle;
      drawn = λ i s at mine. idle_finished r1 client i s v' idle at mine;
    })

ended-IsKept :
    (r : Room) (client c : ClientId) (o : Option ℕ)
    → (client == c) ≡ false
    → IsKept r (end_active r client o).0 c
unfolding end_active
ended-IsKept r client c none other = record {
  member = refl;
  cursor = refl;
  update = refl;
  active = refl;
}
ended-IsKept r client c (some sid) other = record {
  member = refl;
  cursor = refl;
  update = refl;
  active = ground (arith, find-erase r.active_stroke_by_client client c);
}

-- A `leave` changes nothing of what the room keeps for the other clients.
pub leave-IsKept :
    (r : Room) (client c : ClientId) → (client == c) ≡ false → IsKept r (leave r client).0 c
leave-IsKept r client c other =
    let k = ended-IsKept r client c (find r.active_stroke_by_client client) other in
    let r1 = (end_active r client (find r.active_stroke_by_client client)).0 in
    unfold leave forget in
    elim (Bool-cases (contains r.members client)) [
      | inr m ↦ rw m (record { member = refl; cursor = refl; update = refl; active = refl })
      | inl m ↦ rw m (record {
        member = ground (arith, contains-remove r1.members client c, k.member);
        cursor = ground (arith, find-erase r1.board.cursors client c, k.cursor);
        update = ground (arith, find-erase r1.last_cursor_update client c, k.update);
        active = k.active;
      })
    ]

-- A room that nobody is in holds finished strokes only.
pub empty_finished :
    (r : Room) (i : ℕ) (s : Stroke)
    → Inv r
    → r.members ≡ []
    → get_elem? r.board.strokes i ≡ some s
    → s.finished ≡ true
empty_finished r i s v none_left h = elim (Option-cases (find r.active_stroke_by_client s.author)) [
  | inl idle ↦ idle_finished r s.author i s v idle h refl
  | inr (sid, e) ↦ absurd (
      cc (
        v.present.active_member s.author sid e,
        ap (λ ms. contains ms s.author) none_left,
        contains-nil s.author,
      ))
]

ended_members :
    (r : Room) (client : ClientId) (o : Option ℕ) → (end_active r client o).0.members ≡ r.members
unfolding end_active
ended_members r client none = refl
ended_members r client (some sid) = refl

-- The only member leaves: the call succeeds, and the room is empty.
pub leave_last :
    (r : Room) (client : ClientId)
    → r.members ≡ client ∷ []
    → (error_of (leave r client).1 ≡ none) × ((leave r client).0.members ≡ [])
unfolding leave forget
leave_last r client only =
    let is_in : contains r.members client ≡ true = rw only (unfold contains in ground arith) in
    let rest = ended_members r client (find r.active_stroke_by_client client) in
    rw is_in (refl, ap (λ ms. remove ms client) (rest ∙ only) ∙ (unfold remove in ground arith))
