-- ===== src/Core/ServerCore/Due.antt =====
-- What a call of handleEvent of core/src/server_core.cpp still owes the sink, or has given it.
use clear_space.Prelude.{
  ℕ, suc, ◌≤◌, ◌<◌, ◌≡◌, refl, sym, ap, ◌∙◌, ◌⊎◌, inl, inr, false, some, List, [], ◌∷◌, ◌++◌,
  append_assoc, length, arith, subst, ◌==◌, ==_refl, ==→eq, Bool-cases,
}
use clear_space.Core.Types.{RoomId, PersistedBoardSnapshot}
use clear_space.Core.Room.{Room, make_persisted_snapshot, make_persisted_snapshot_lem}
use clear_space.Core.ServerCore.{
  ServerCore, SavePiece, take_image, hand_over, Call, serve, resume_save,
}
use clear_space.Core.ServerCore.Invariant.{room_of}
use clear_space.Core.ServerCore.Space.{HasSpace-fewer}
use clear_space.Core.ServerCore.Threads.{Threads, Turn, called, resumed, turn, turns}
use clear_space.Core.ServerCore.Saving.{
  IsImage, IsThreads, serve_grows, taken, turn-cases, turn-IsThreads, turns-cons,
}

-- A snapshot of the room from when it had given out the number `q`, and had its invariant.
abbrev pub IsSince : RoomId → ℕ → PersistedBoardSnapshot → Type 0
IsSince a q s = (s.room ≡ a) × (q ≤ s.last_seq) × IsImage s

-- The sink was given such a snapshot.
abbrev pub IsGiven : List PersistedBoardSnapshot → RoomId → ℕ → Type 0
IsGiven given a q =
    (before : List PersistedBoardSnapshot) × (s : PersistedBoardSnapshot) × (after : List
      PersistedBoardSnapshot)
    × (given ≡ before ++ (s ∷ after))
    × IsSince a q s

-- The thread has still to take it, or to hand it over; or the sink has it.
abbrev pub IsDue : Threads → ℕ → RoomId → ℕ → Type 0
IsDue w t a q =
    ((w.rest t ≡ take_image a ∷ []) × (r : Room) × (room_of w.core a ≡ some r) × (q < r.next_seq))
    ⊎ (((s : PersistedBoardSnapshot) × (w.rest t ≡ hand_over s ∷ []) × IsSince a q s)
        ⊎ IsGiven w.enqueued a q)

IsGiven-more :
    (given more : List PersistedBoardSnapshot) (a q : ℕ)
    → IsGiven given a q
    → IsGiven (given ++ more) a q
IsGiven-more given more a q (before, s, after, e, i) =
    (before, s, after ++ more, ap (λ x. x ++ more) e ∙ append_assoc before (s ∷ after) more, i)

called-IsDue :
    (w : Threads) (t u : ℕ) (call : Call) (a q k : ℕ)
    → IsThreads w (suc k)
    → w.rest u ≡ []
    → IsDue w t a q
    → IsDue (called w u (serve w.core call)) t a q
called-IsDue w t u call a q k h free due = elim (Bool-cases (u == t)) [
  | inl same ↦
      let none_left : w.rest t ≡ [] = ap (λ x. w.rest x) (sym (==→eq u t same)) ∙ free in
      elim due [
        | inl (e, r, at, late) ↦ absurd (cc (e, none_left))
        | inr (inl (s, e, i)) ↦ absurd (cc (e, none_left))
        | inr (inr given) ↦ inr (inr given)
      ]
  | inr other ↦ elim due [
    | inl (e, r, at, late) ↦
        let (r', at', grows) =
          serve_grows w.core call a r h.sound
            (HasSpace-fewer w.core 1 (suc k) (omega arith) h.space) at in
        inl (rw (other) e, r', at', omega (arith, late, grows))
    | inr (inl (s, e, i)) ↦ inr (inl (s, rw (other) e, i))
    | inr (inr given) ↦ inr (inr given)
  ]
]

-- One thread's turn, and another thread's or its own piece of work.
resumed_other :
    (w : Threads) (t u : ℕ) (p : SavePiece) (ps : List SavePiece) (a q : ℕ)
    → (u == t) ≡ false
    → IsDue w t a q
    → IsDue (resumed w u ps (resume_save w.core.rooms p)) t a q
resumed_other w t u p ps a q other due = elim due [
  | inl (e, r, at, late) ↦ inl (rw (other) e, r, at, late)
  | inr (inl (s, e, i)) ↦ inr (inl (s, rw (other) e, i))
  | inr (inr given) ↦ inr (inr (IsGiven-more w.enqueued (resume_save w.core.rooms p).1 a q given))
]

pub handed :
    (c : ServerCore) (s : PersistedBoardSnapshot) → resume_save c.rooms (hand_over s) ≡ ([], s ∷ [])
unfolding resume_save
handed c s = refl

image-IsSince :
    (w : Threads) (a q k : ℕ) (r : Room)
    → IsThreads w k
    → room_of w.core a ≡ some r
    → q < r.next_seq
    → IsSince a q (make_persisted_snapshot r)
image-IsSince w a q k r h at late = (
  ap (λ (s : PersistedBoardSnapshot). s.room) (make_persisted_snapshot_lem r)
      ∙ h.sound.own_id a r at,
  omega (
    arith,
    late,
    ap (λ (s : PersistedBoardSnapshot). s.last_seq) (make_persisted_snapshot_lem r),
  ),
  (r, h.sound.sound a r at, refl),
)

resumed_own :
    (w : Threads) (t : ℕ) (p : SavePiece) (ps : List SavePiece) (a q k : ℕ)
    → IsThreads w k
    → w.rest t ≡ p ∷ ps
    → IsDue w t a q
    → IsDue (resumed w t ps (resume_save w.core.rooms p)) t a q
resumed_own w t p ps a q k h now due = elim due [
  | inl (e, r, at, late) ↦
      let s = make_persisted_snapshot r in
      let step : resume_save w.core.rooms p ≡ (hand_over s ∷ [], []) =
        cc (e, now, taken w.core a r at) in
      let last : ps ≡ [] = cc (e, now) in
      subst (λ x. IsDue (resumed w t ps x) t a q) (sym step)
        (subst (λ x. IsDue (resumed w t x (hand_over s ∷ [], [])) t a q) (sym last)
          (inr (inl (s, rw (==_refl t), image-IsSince w a q k r h at late))))
  | inr (inl (s, e, i)) ↦
      let step : resume_save w.core.rooms p ≡ ([], s ∷ []) = cc (e, now, handed w.core s) in
      subst (λ x. IsDue (resumed w t ps x) t a q) (sym step)
        (inr (inr (w.enqueued, s, [], refl, i)))
  | inr (inr given) ↦ inr (inr (IsGiven-more w.enqueued (resume_save w.core.rooms p).1 a q given))
]

turn-IsDue :
    (w w' : Threads) (x : Turn) (t a q k : ℕ)
    → turn w x ≡ some w'
    → IsThreads w (suc k)
    → IsDue w t a q
    → IsDue w' t a q
turn-IsDue w w' x t a q k run h due = elim (turn-cases w w' x run) [
  | inl (u, call, free, is) ↦
      subst (λ v. IsDue v t a q) is (called-IsDue w t u call a q k h free due)
  | inr (u, p, ps, now, is) ↦
      subst (λ v. IsDue v t a q) is
        (elim (Bool-cases (u == t)) [
          | inr other ↦ resumed_other w t u p ps a q other due
          | inl same ↦
              let t_is = sym (==→eq u t same) in
              subst (λ z. IsDue (resumed w z ps (resume_save w.core.rooms p)) t a q) t_is
                (resumed_own w t p ps a q (suc k) h (ap (λ z. w.rest z) t_is ∙ now) due)
        ])
]

pub turns-IsDue :
    (w w' : Threads) (xs : List Turn) (t a q : ℕ)
    → turns w xs ≡ some w'
    → IsThreads w (length xs)
    → IsDue w t a q
    → IsDue w' t a q
unfolding turns
turns-IsDue w w' [] t a q run h due =
    let same : w ≡ w' = cc (run) in subst (λ v. IsDue v t a q) same due
turns-IsDue w w' (x ∷ xs) t a q run h due =
    let (w1, first, rest) = turns-cons w w' x xs run in
    let h' = subst (IsThreads w) (omega arith) h in
    turns-IsDue w1 w' xs t a q rest (turn-IsThreads w w1 x (length xs) first h')
      (turn-IsDue w w1 x t a q (length xs) first h' due)
