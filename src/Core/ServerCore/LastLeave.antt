-- ===== src/Core/ServerCore/LastLeave.antt =====
-- When the last member leaves a room by `leaveRoom` of core/src/server_core.cpp.
use clear_space.Prelude.{
  ℕ, suc, ◌^◌, ◌+◌, ◌-◌, ◌<◌, ◌≡◌, refl, sym, ap, ◌∙◌, true, some, List, [], ◌∷◌, ◌++◌, append-nil,
  length, arith, ==_refl, get_elem?,
}
use clear_space.Prelude.Members.{contains}
use clear_space.Core.Types.{RoomId, ClientId, Stroke, OutgoingEvent, PersistedBoardSnapshot, value}
use clear_space.Core.Room.{
  Room, leaves, leave, step, member_count_lem, make_persisted_snapshot, make_persisted_snapshot_lem,
}
use clear_space.Core.Room.Counters.{step_id}
use clear_space.Core.Room.Preservation.{leave-Inv}
use clear_space.Core.Room.Membership.{leave_member-value}
use clear_space.Core.Room.Departure.{leave_last, empty_finished}
use clear_space.Core.RoomManager.{get_room-some}
use clear_space.Core.ServerCore.{
  ServerCore, count, take_image, hand_over, on_room, serve, resume_save, leave_room, rest_of_leave,
  new_core,
}
use clear_space.Core.ServerCore.Invariant.{room_of, serve_room}
use clear_space.Core.ServerCore.Threads.{
  Threads, Turn, calls, resumes, called, resumed, new_threads, turn, turns,
}
use clear_space.Core.ServerCore.Saving.{taken, turns-IsThreads, new_threads-IsThreads}
use clear_space.Core.ServerCore.Due.{handed}
use clear_space.Core.ServerCore.Returned.{turn_resumes, turns_next, turns_done, turns_sink}

-- A leave whose thread goes on until the call has returned.
abbrev pub leave_turns : ℕ → RoomId → ClientId → List Turn
leave_turns t a client =
    calls t (on_room a (leaves client)) ∷ resumes t ∷ resumes t ∷ resumes t ∷ []

leave_rest :
    (c : ServerCore) (a client : ℕ) (r : Room) (es : List OutgoingEvent)
    → room_of c a ≡ some r
    → c.has_sink ≡ true
    → (leave r client).1 ≡ value es
    → (serve c (on_room a (leaves client))).2 ≡ count a ∷ []
unfolding serve leave_room rest_of_leave
leave_rest c a client r es at sink ok =
    rw (get_room-some c.rooms a r at, leave_room, ok, rest_of_leave, sink)

counted :
    (c : ServerCore) (a : RoomId) (r : Room)
    → room_of c a ≡ some r
    → r.members ≡ []
    → resume_save c.rooms (count a) ≡ (take_image a ∷ [], [])
unfolding resume_save
counted c a r at empty = rw (at, resume_save, member_count_lem r, empty)

first_turn :
    (w : Threads) (t a client : ℕ)
    → w.rest t ≡ []
    → turn w (calls t (on_room a (leaves client)))
      ≡ some (called w t (serve w.core (on_room a (leaves client))))
unfolding turn
first_turn w t a client free = rw (free, turn)

last_leave_turns :
    (w : Threads) (t a client : ℕ) (r : Room)
    → w.rest t ≡ []
    → room_of w.core a ≡ some r
    → w.core.has_sink ≡ true
    → r.members ≡ client ∷ []
    → (w' : Threads) × (turns w (leave_turns t a client) ≡ some w')
      × (w'.rest t ≡ [])
      × (w'.enqueued ≡ w.enqueued ++ (make_persisted_snapshot (leave r client).0 ∷ []))
unfolding step contains
last_leave_turns w t a client r free at sink only =
    let r' = (leave r client).0 in
    let s = make_persisted_snapshot r' in
    let w1 = called w t (serve w.core (on_room a (leaves client))) in
    let w2 = resumed w1 t [] (take_image a ∷ [], []) in
    let w3 = resumed w2 t [] (hand_over s ∷ [], []) in
    let w4 = resumed w3 t [] ([], s ∷ []) in
    let there = serve_room w.core a (leaves client) r at in
    let (es, ok) = leave_member-value r client (rw (only, ==_refl client) refl) in
    let second : turn w1 (resumes t) ≡ some w2 =
      turn_resumes w1 t (count a) (rw (==_refl t) (leave_rest w.core a client r es at sink ok))
      ∙ ap (λ x. some (resumed w1 t [] x))
          (counted w1.core a r' there (leave_last r client only).1) in
    let third : turn w2 (resumes t) ≡ some w3 =
      turn_resumes w2 t (take_image a) (rw (==_refl t) refl)
      ∙ ap (λ x. some (resumed w2 t [] x)) (taken w2.core a r' there) in
    let fourth : turn w3 (resumes t) ≡ some w4 =
      turn_resumes w3 t (hand_over s) (rw (==_refl t) refl)
      ∙ ap (λ x. some (resumed w3 t [] x)) (handed w3.core s) in
    (
      w4,
      turns_next w w1 (calls t (on_room a (leaves client))) (resumes t ∷ resumes t ∷ resumes t ∷ [])
            (first_turn w t a client free)
          ∙ turns_next w1 w2 (resumes t) (resumes t ∷ resumes t ∷ []) second
          ∙ turns_next w2 w3 (resumes t) (resumes t ∷ []) third
          ∙ turns_next w3 w4 (resumes t) [] fourth
          ∙ turns_done w4,
      rw (==_refl t) refl,
      ap (λ x. x ++ (s ∷ [])) (append-nil (w.enqueued ++ []) ∙ append-nil w.enqueued),
    )

-- After fewer than 2^63 - 2 turns of threads on a new server with a sink, the only member of a room leaves
-- it on a thread with no call under way. If no other thread has a turn until the call has returned, the sink
-- is given exactly one snapshot, of that room, and all its strokes are finished.
pub last_leave_saves :
    (before : List Turn) (w : Threads) (t a client : ℕ) (r : Room)
    → suc (length before) < 2 ^ 63 - 1
    → turns (new_threads true) before ≡ some w
    → w.rest t ≡ []
    → room_of w.core a ≡ some r
    → r.members ≡ client ∷ []
    → (w' : Threads) × (s : PersistedBoardSnapshot) × (turns w (leave_turns t a client) ≡ some w')
      × (w'.rest t ≡ [])
      × (w'.enqueued ≡ w.enqueued ++ (s ∷ []))
      × (s.room ≡ a)
      × ((i : ℕ) (z : Stroke) → get_elem? s.strokes i ≡ some z → z.finished ≡ true)
unfolding step new_threads new_core
last_leave_saves before w t a client r small run free at only =
    let (w', went, done, given) =
      last_leave_turns w t a client r free at (turns_sink (new_threads true) w before run) only in
    let h =
      turns-IsThreads (new_threads true) w before 1 run
        (new_threads-IsThreads true (length before + 1) (omega (arith, small))) in
    let r' = (leave r client).0 in
    let kept = leave-Inv r client (h.sound.sound a r at) (h.space.seqs a r at) in
    (
      w',
      make_persisted_snapshot r',
      went,
      done,
      given,
      ap (λ (s : PersistedBoardSnapshot). s.room) (make_persisted_snapshot_lem r')
          ∙ step_id r (leaves client)
          ∙ h.sound.own_id a r at,
      λ i z found. empty_finished r' i z kept (leave_last r client only).1 (
          ap (λ (s : PersistedBoardSnapshot). get_elem? s.strokes i)
            (sym (make_persisted_snapshot_lem r'))
          ∙ found),
    )
