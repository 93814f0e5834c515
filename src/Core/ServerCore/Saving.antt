-- ===== src/Core/ServerCore/Saving.antt =====
-- What the sink of core/src/server_core.cpp is given when calls run on several threads.
use clear_space.Prelude.{
  ℕ, suc, ◌^◌, ◌+◌, ◌-◌, ◌≤◌, ◌<◌, ◌≡◌, refl, sym, ap, ◌∙◌, ◌⊎◌, inl, inr, Bool, true, false,
  Option, none, some, List, [], ◌∷◌, ◌++◌, All, All-append, length, arith, subst, ◌==◌, ==→eq,
  if◌then◌else◌, Bool-cases, Option-cases,
}
use clear_space.Core.Types.{RoomId, EventPayload, PersistedBoardSnapshot, value, error}
use clear_space.Core.Room.{
  Room, Events, joins, leaves, applies, step, member_count, make_persisted_snapshot,
}
use clear_space.Core.Room.Invariant.{Inv}
use clear_space.Core.Room.Growth.{step_grows}
use clear_space.Core.RoomManager.{get_room-some, get_room-none}
use clear_space.Core.ServerCore.{
  ServerCore, SavePiece, count, take_image, hand_over, Call, creates, on_room, serve, resume_save,
  handle_event, leave_room, should_save, rest_of_event, rest_of_leave,
}
use clear_space.Core.ServerCore.Invariant.{
  room_of, IsCore, HasSpace, serve-IsCore, serve_room, serve_isolated, create_fresh,
  new_core-IsCore,
}
use clear_space.Core.ServerCore.Space.{serve-HasSpace, HasSpace-fewer, new_core-HasSpace}
use clear_space.Core.ServerCore.Threads.{
  Threads, Turn, calls, resumes, called, resumed, new_threads, turn, turns,
}

-- A room stays where it is, and its numbers grow.
pub serve_grows :
    (c : ServerCore) (call : Call) (a : RoomId) (r : Room)
    → IsCore c
    → HasSpace c 1
    → room_of c a ≡ some r
    → (r' : Room) × (room_of (serve c call).0 a ≡ some r') × (r.next_seq ≤ r'.next_seq)
serve_grows c creates a r v h e = unfold serve in (r, (create_fresh c v).2 a r e, omega arith)
serve_grows c (on_room b op) a r v h e = elim (Bool-cases (b == a)) [
  | inr other ↦ (r, serve_isolated c b a op other ∙ e, omega arith)
  | inl same ↦
      let at : room_of c b ≡ some r = ap (λ x. room_of c x) (==→eq b a same) ∙ e in
      (
        (step r op).0,
        ap (λ x. room_of (serve c (on_room b op)).0 x) (sym (==→eq b a same))
            ∙ serve_room c b op r at,
        step_grows r op (h.seqs a r e),
      )
]

-- A snapshot of a room, taken at a moment when the room had its invariant.
abbrev pub IsImage : PersistedBoardSnapshot → Type 0
IsImage s = (r : Room) × Inv r × (s ≡ make_persisted_snapshot r)

-- A piece that hands a snapshot over has one of these.
abbrev pub IsImagePiece : (PersistedBoardSnapshot → Type 0) → SavePiece → Type 0
IsImagePiece S (count a) = Unit {0}
IsImagePiece S (take_image a) = Unit {0}
IsImagePiece S (hand_over s) = S s

pub record IsThreads (w : Threads) (k : ℕ) : Type 0 where
  pub sound : IsCore w.core
  pub space : HasSpace w.core k
  pub pieces : (t : ℕ) → All (IsImagePiece IsImage) (w.rest t)
  pub images : All IsImage w.enqueued

rest_of_leave-IsImagePiece :
    (S : PersistedBoardSnapshot → Type 0) (b : Bool) (a : RoomId) (res : Events)
    → All (IsImagePiece S) (rest_of_leave b a res)
unfolding rest_of_leave
rest_of_leave-IsImagePiece S b a (error e) = tt
rest_of_leave-IsImagePiece S true a (value es) = (tt, tt)
rest_of_leave-IsImagePiece S false a (value es) = tt

image_if :
    (S : PersistedBoardSnapshot → Type 0) (b : Bool) (a : RoomId)
    → All (IsImagePiece S) (if b then take_image a ∷ [] else [])
image_if S true a = (tt, tt)
image_if S false a = tt

rest_of_event-IsImagePiece :
    (S : PersistedBoardSnapshot → Type 0) (b : Bool) (a : RoomId) (ev : EventPayload) (res : Events)
    → All (IsImagePiece S) (rest_of_event b a ev res)
unfolding rest_of_event
rest_of_event-IsImagePiece S b a ev (error e) = tt
rest_of_event-IsImagePiece S true a ev (value es) = image_if S (should_save ev) a
rest_of_event-IsImagePiece S false a ev (value es) = tt

pub rest-IsImagePiece :
    (S : PersistedBoardSnapshot → Type 0) (c : ServerCore) (call : Call)
    → All (IsImagePiece S) (serve c call).2
unfolding serve leave_room handle_event
rest-IsImagePiece S c creates = tt
rest-IsImagePiece S c (on_room a (joins client)) = tt
rest-IsImagePiece S c (on_room a (leaves client)) = elim (Option-cases (room_of c a)) [
  | inl e ↦ rw (get_room-none c.rooms a e, leave_room) tt
  | inr (r, e) ↦
      rw (get_room-some c.rooms a r e, leave_room) (rest_of_leave-IsImagePiece S c.has_sink a _)
]
rest-IsImagePiece S c (on_room a (applies now client ev)) = elim (Option-cases (room_of c a)) [
  | inl e ↦ rw (get_room-none c.rooms a e, handle_event) tt
  | inr (r, e) ↦
      rw (get_room-some c.rooms a r e, handle_event)
        (rest_of_event-IsImagePiece S c.has_sink a ev _)
]

pub taken :
    (c : ServerCore) (a : RoomId) (r : Room)
    → room_of c a ≡ some r
    → resume_save c.rooms (take_image a) ≡ (hand_over (make_persisted_snapshot r) ∷ [], [])
unfolding resume_save
taken c a r e = rw (e, resume_save)

pub resume_save-IsImagePiece :
    (S : PersistedBoardSnapshot → Type 0) (c : ServerCore) (p : SavePiece)
    → ((a : RoomId) (r : Room) → room_of c a ≡ some r → S (make_persisted_snapshot r))
    → IsImagePiece S p
    → All (IsImagePiece S) (resume_save c.rooms p).0 × All S (resume_save c.rooms p).1
unfolding resume_save
resume_save-IsImagePiece S c (hand_over s) v i = (tt, (i, tt))
resume_save-IsImagePiece S c (count a) v i = elim (Option-cases (room_of c a)) [
  | inl e ↦ rw (e, resume_save) (tt, tt)
  | inr (r, e) ↦ rw (e, resume_save) (image_if S (member_count r == 0) a, tt)
]
resume_save-IsImagePiece S c (take_image a) v i = elim (Option-cases (room_of c a)) [
  | inl e ↦ rw (e, resume_save) (tt, tt)
  | inr (r, e) ↦ rw (e, resume_save) ((v a r e, tt), tt)
]

-- What waits on each thread, when one thread's pieces are others.
pub pieces_after :
    (S : PersistedBoardSnapshot → Type 0) (w : Threads) (t : ℕ) (ps : List SavePiece)
    → ((u : ℕ) → All (IsImagePiece S) (w.rest u))
    → All (IsImagePiece S) ps
    → (u : ℕ) → All (IsImagePiece S) (if t == u then ps else w.rest u)
pieces_after S w t ps h here u = elim (Bool-cases (t == u)) [
  | inl e ↦ rw (e) here
  | inr o ↦ rw (o) (h u)
]

called-IsThreads :
    (w : Threads) (t : ℕ) (call : Call) (k : ℕ)
    → IsThreads w (suc k)
    → IsThreads (called w t (serve w.core call)) k
called-IsThreads w t call k h = record {
  sound = serve-IsCore w.core call h.sound (HasSpace-fewer w.core 1 (suc k) (omega arith) h.space);
  space = serve-HasSpace w.core call k h.space;
  pieces =
      pieces_after IsImage w t (serve w.core call).2 h.pieces
        (rest-IsImagePiece IsImage w.core call);
  images = h.images;
}

resumed-IsThreads :
    (w : Threads) (t : ℕ) (p : SavePiece) (ps : List SavePiece) (k : ℕ)
    → w.rest t ≡ p ∷ ps
    → IsThreads w (suc k)
    → IsThreads (resumed w t ps (resume_save w.core.rooms p)) k
resumed-IsThreads w t p ps k e h =
    let all = subst (λ x. All (IsImagePiece IsImage) x) e (h.pieces t) in
    let (more, given) =
      resume_save-IsImagePiece IsImage w.core p (λ a r e. (r, h.sound.sound a r e, refl)) all.0 in
    record {
      sound = h.sound;
      space = HasSpace-fewer w.core k (suc k) (omega arith) h.space;
      pieces =
          pieces_after IsImage w t ((resume_save w.core.rooms p).0 ++ ps) h.pieces
            (All-append (IsImagePiece IsImage) (resume_save w.core.rooms p).0 ps more all.1);
      images = All-append IsImage w.enqueued (resume_save w.core.rooms p).1 h.images given;
    }

-- What a turn does, by what its thread has to do.
pub turn-cases :
    (w w' : Threads) (x : Turn)
    → turn w x ≡ some w'
    → ((t : ℕ) × (call : Call) × (w.rest t ≡ []) × (called w t (serve w.core call) ≡ w'))
      ⊎ ((t : ℕ) × (p : SavePiece) × (ps : List SavePiece) × (w.rest t ≡ p ∷ ps)
          × (resumed w t ps (resume_save w.core.rooms p) ≡ w'))
unfolding turn
turn-cases w w' (calls t call) run = go (w.rest t) refl run
  where
    go :
        (ps : List SavePiece)
        → w.rest t ≡ ps
        → elim ps [ [] ↦ some (called w t (serve w.core call)) | p ∷ ps ↦ none ] ≡ some w'
        → ((t : ℕ) × (call : Call) × (w.rest t ≡ []) × (called w t (serve w.core call) ≡ w'))
          ⊎ ((t : ℕ) × (p : SavePiece) × (ps : List SavePiece) × (w.rest t ≡ p ∷ ps)
              × (resumed w t ps (resume_save w.core.rooms p) ≡ w'))
    go [] e run = inl (t, call, e, cc (run))
    go (p ∷ ps) e run = absurd (cc (run))
turn-cases w w' (resumes t) run = go (w.rest t) refl run
  where
    go :
        (ps : List SavePiece)
        → w.rest t ≡ ps
        → elim ps [ [] ↦ none | p ∷ ps ↦ some (resumed w t ps (resume_save w.core.rooms p)) ]
          ≡ some w'
        → ((t : ℕ) × (call : Call) × (w.rest t ≡ []) × (called w t (serve w.core call) ≡ w'))
          ⊎ ((t : ℕ) × (p : SavePiece) × (ps : List SavePiece) × (w.rest t ≡ p ∷ ps)
              × (resumed w t ps (resume_save w.core.rooms p) ≡ w'))
    go [] e run = absurd (cc (run))
    go (p ∷ ps) e run = inr (t, p, ps, e, cc (run))

pub turn-IsThreads :
    (w w' : Threads) (x : Turn) (k : ℕ) → turn w x ≡ some w' → IsThreads w (suc k) → IsThreads w' k
turn-IsThreads w w' x k run h = elim (turn-cases w w' x run) [
  | inl (t, call, e, is) ↦ subst (λ v. IsThreads v k) is (called-IsThreads w t call k h)
  | inr (t, p, ps, e, is) ↦ subst (λ v. IsThreads v k) is (resumed-IsThreads w t p ps k e h)
]

pub new_threads-IsThreads :
    (with_sink : Bool) (k : ℕ) → k < 2 ^ 63 - 1 → IsThreads (new_threads with_sink) k
unfolding new_threads
new_threads-IsThreads b k small = record {
  sound = new_core-IsCore b;
  space = new_core-HasSpace b k (omega (arith, small));
  pieces = λ t. tt;
  images = tt;
}

pub turns-cons :
    (w w' : Threads) (x : Turn) (xs : List Turn)
    → turns w (x ∷ xs) ≡ some w'
    → (w1 : Threads) × (turn w x ≡ some w1) × (turns w1 xs ≡ some w')
unfolding turns
turns-cons w w' x xs run = go (turn w x) refl run
  where
    go :
        (o : Option Threads)
        → turn w x ≡ o
        → elim o [ none ↦ none | some w1 ↦ turns w1 xs ] ≡ some w'
        → (w1 : Threads) × (turn w x ≡ some w1) × (turns w1 xs ≡ some w')
    go none e run = absurd (cc (run))
    go (some w1) e run = (w1, e, run)

pub turns-IsThreads :
    (w w' : Threads) (xs : List Turn) (k : ℕ)
    → turns w xs ≡ some w'
    → IsThreads w (length xs + k)
    → IsThreads w' k
unfolding turns
turns-IsThreads w w' [] k run h =
    let same : w ≡ w' = cc (run) in
    subst (λ v. IsThreads v k) same (subst (IsThreads w) (omega arith) h)
turns-IsThreads w w' (x ∷ xs) k run h =
    let (w1, first, rest) = turns-cons w w' x xs run in
    turns-IsThreads w1 w' xs k rest
      (turn-IsThreads w w1 x (length xs + k) first (subst (IsThreads w) (omega arith) h))
