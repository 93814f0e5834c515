-- ===== src/Core/ServerCore/Space.antt =====
-- How many calls of core/src/server_core.cpp the counters have space for, and what holds after them.
use mathlib.Core.Path.{subst, sym}
use clear_space.Prelude.{
  ℕ, suc, ◌+◌, ◌*◌, ◌^◌, ◌-◌, ◌<◌, ◌≤◌, inl, inr, Bool, List, [], ◌∷◌, arith, Option-cases, length,
  u64_mod, incr64-eq,
}
use clear_space.Core.Types.{RoomId}
use clear_space.Core.Room.{Op}
use clear_space.Core.Room.Invariant.{HasRoom, new_room-HasRoom}
use clear_space.Core.Room.Counters.{step_seq}
use clear_space.Core.RoomManager.{
  new_manager_id, object_at, object_at-new_manager, create_room_id, put_room_id,
}
use clear_space.Core.ServerCore.{
  ServerCore, Call, creates, on_room, new_core, create, serve, serve_all,
}
use clear_space.Core.ServerCore.Invariant.{
  serve_present, serve_absent, IsCore, HasSpace, new_core-IsCore, created_cases, stepped_cases,
  serve-IsCore,
}

create-HasSpace : (c : ServerCore) (k : ℕ) → HasSpace c (suc k) → HasSpace (create c).0 k
unfolding create
create-HasSpace c k h = record {
  ids =
      rw ((create_room_id c.rooms).1, incr64-eq c.rooms.next_room_id (omega (arith, h.ids)))
        (omega (arith, h.ids));
  seqs = λ a r e. elim (created_cases c a r e) [
    | inl (same, at) ↦
        subst (λ z. HasRoom z (2 * k)) (sym at)
          (new_room-HasRoom c.rooms.next_room_id (2 * k) (omega (arith, h.calls)))
    | inr old ↦ omega (arith, h.seqs a r old)
  ];
  calls = omega (arith, h.calls);
}

on_room-HasSpace :
    (c : ServerCore) (b : RoomId) (op : Op) (k : ℕ)
    → HasSpace c (suc k)
    → HasSpace (serve c (on_room b op)).0 k
on_room-HasSpace c b op k h = elim (Option-cases (object_at c.rooms b)) [
  | inl e ↦ rw (serve_absent c b op e) (record {
    ids = omega (arith, h.ids);
    seqs = λ a r at. omega (arith, h.seqs a r at);
    calls = omega (arith, h.calls);
  })
  | inr (r, e) ↦ record {
    ids = rw ((serve_present c b op r e).0, put_room_id) (omega (arith, h.ids));
    seqs = λ a q at. elim (stepped_cases c b op r a q e at) [
      | inl (same, now) ↦
          subst (λ z. HasRoom z (2 * k)) (sym now)
            (step_seq r op (2 * k) (omega (arith, h.seqs b r e)))
      | inr old ↦ omega (arith, h.seqs a q old)
    ];
    calls = omega (arith, h.calls);
  }
]

pub serve-HasSpace :
    (c : ServerCore) (call : Call) (k : ℕ) → HasSpace c (suc k) → HasSpace (serve c call).0 k
serve-HasSpace c creates k h = unfold serve in create-HasSpace c k h
serve-HasSpace c (on_room b op) k h = on_room-HasSpace c b op k h

pub HasSpace-fewer : (c : ServerCore) (k j : ℕ) → k ≤ j → HasSpace c j → HasSpace c k
HasSpace-fewer c k j l h = record {
  ids = omega (arith, l, h.ids);
  seqs = λ a r at. omega (arith, l, h.seqs a r at);
  calls = omega (arith, l, h.calls);
}

serve_all-IsCore :
    (c : ServerCore) (calls : List Call)
    → IsCore c
    → HasSpace c (length calls)
    → IsCore (serve_all c calls)
unfolding serve_all
serve_all-IsCore c [] v h = v
serve_all-IsCore c (call ∷ rest) v h =
    serve_all-IsCore (serve c call).0 rest
      (serve-IsCore c call v (HasSpace-fewer c 1 (suc (length rest)) (omega arith) h))
      (serve-HasSpace c call (length rest) h)

pub new_core-HasSpace :
    (with_sink : Bool) (k : ℕ) → 2 * k + 1 < u64_mod → HasSpace (new_core with_sink) k
unfolding new_core
new_core-HasSpace b k h = record {
  ids = omega (arith, new_manager_id);
  seqs = λ a r at. absurd (cc (object_at-new_manager a));
  calls = h;
}

serve_all-HasSpace :
    (c : ServerCore) (calls : List Call) (k : ℕ)
    → HasSpace c (length calls + k)
    → HasSpace (serve_all c calls) k
unfolding serve_all
serve_all-HasSpace c [] k h = subst (HasSpace c) (omega arith) h
serve_all-HasSpace c (call ∷ rest) k h =
    serve_all-HasSpace (serve c call).0 rest k
      (serve-HasSpace c call (length rest + k) (subst (HasSpace c) (omega arith) h))

pub serve_all-new_core-HasSpace :
    (with_sink : Bool) (calls : List Call) (k : ℕ)
    → 2 * (length calls + k) + 1 < u64_mod
    → HasSpace (serve_all (new_core with_sink) calls) k
serve_all-new_core-HasSpace b calls k h =
    serve_all-HasSpace (new_core b) calls k (new_core-HasSpace b (length calls + k) h)

-- Whatever calls a new server gets, its rooms keep their ids and their invariants, for fewer than
-- 2 ^ 63 - 1 calls.
pub serve_all-new_core-IsCore :
    (with_sink : Bool) (calls : List Call)
    → length calls < 2 ^ 63 - 1
    → IsCore (serve_all (new_core with_sink) calls)
serve_all-new_core-IsCore b calls h =
    serve_all-IsCore (new_core b) calls (new_core-IsCore b)
      (new_core-HasSpace b (length calls) (omega arith))
