-- ===== src/Core/Room/Preservation.antt =====
-- `leave`, and every operation of core/src/room.cpp, keep the invariant.
use clear_space.Prelude.{
  ℕ, ◌≡◌, refl, inl, inr, Option, none, some, arith, Bool-cases, incr64, incr64-eq,
}
use clear_space.Prelude.Map.{find, find-erase}
use clear_space.Prelude.Members.{contains}
use clear_space.Core.Types.{ClientId}
use clear_space.Core.Room.{
  Room, Op, joins, leaves, applies, end_active, finish_indexed, forget, leave, step,
}
use clear_space.Core.Room.Order.{later-IsOrdered}
use clear_space.Core.Room.Presence.{forget-IsPresent}
use clear_space.Core.Room.Invariant.{
  Inv, HasRoom, join-Inv, active_indexed, finished_Inv, apply-Inv,
}

-- The room after the first half of `leave`, when the client had `o` as its active stroke.
pub ended-Inv :
    (r : Room) (client : ClientId) (o : Option ℕ)
    → Inv r
    → HasRoom r 2
    → find r.active_stroke_by_client client ≡ o
    → Inv (end_active r client o).0
      × HasRoom (end_active r client o).0 1
      × (find (end_active r client o).0.active_stroke_by_client client ≡ none)
unfolding end_active
ended-Inv r client none v h e = (v, omega arith, e)
ended-Inv r client (some sid) v h e =
    let (i, ei) = active_indexed r client sid v e in
    rw (ei, finish_indexed, incr64-eq r.next_seq (omega arith))
      (
        finished_Inv r client sid i v e ei,
        omega arith,
        ground (arith, find-erase r.active_stroke_by_client client client),
      )

pub forget-Inv :
    (r : Room) (client : ClientId)
    → Inv r
    → find r.active_stroke_by_client client ≡ none
    → Inv (forget r client)
unfolding forget
forget-Inv r client v e = record {
  indexed = v.indexed;
  active = v.active;
  ordered = v.ordered;
  present = forget-IsPresent _ _ _ _ v.present client e;
  started = v.started;
  ids_behind = v.ids_behind;
}

-- A number of the sequence is used up.
tick-Inv : (r : Room) → Inv r → HasRoom r 1 → Inv (record r { next_seq = incr64 r.next_seq })
tick-Inv r v h = rw (incr64-eq r.next_seq h) (record {
  indexed = v.indexed;
  active = v.active;
  ordered = later-IsOrdered _ _ v.ordered _ (omega arith);
  present = v.present;
  started = omega arith;
  ids_behind = omega (arith, v.ids_behind);
})

pub leave-Inv : (r : Room) (client : ClientId) → Inv r → HasRoom r 2 → Inv (leave r client).0
unfolding leave
leave-Inv r client v h = elim (Bool-cases (contains r.members client)) [
  | inr m ↦ rw m v
  | inl m ↦
      let o = find r.active_stroke_by_client client in
      let (v', h', idle) = ended-Inv r client o v h refl in
      rw m (tick-Inv _ (forget-Inv _ client v' idle) (unfold forget in h'))
]

-- Every operation keeps the invariant.
pub step-Inv : (r : Room) (op : Op) → Inv r → HasRoom r 2 → Inv (step r op).0
unfolding step
step-Inv r (joins client) v h = join-Inv r client v
step-Inv r (leaves client) v h = leave-Inv r client v h
step-Inv r (applies now client ev) v h = apply-Inv r now client ev v (omega arith)
