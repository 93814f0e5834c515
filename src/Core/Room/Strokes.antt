-- ===== src/Core/Room/Strokes.antt =====
-- What the operations do to the strokes of the board.
use mathlib.Core.Path.{subst}
use clear_space.Prelude.{
  ℕ, ◌≡◌, refl, sym, ap, inl, inr, Bool, true, false, Option, none, some, List, [], ◌∷◌, ◌++◌,
  append-nil, arith, ◌==◌, ==_refl, Bool-cases, Option-cases, get_elem?, modify, get_elem?-lt,
  get_elem?-snoc, get_elem?-modify,
}
use clear_space.Prelude.Map.{find}
use clear_space.Prelude.Members.{contains}
use clear_space.Core.Types.{
  ClientId, TimePoint, Point, Color, Thickness, Stroke, EventPayload, stroke_begin, stroke_point,
  stroke_end, cursor_move, clear,
}
use clear_space.Core.Room.{
  Room, Op, joins, leaves, applies, finish, add_point, end_active, finish_indexed, forget, join,
  leave, apply_stroke_begin, apply_stroke_point, apply_stroke_end, apply_cursor_move, apply_clear,
  apply_event, apply, ensure_member, step,
}
use clear_space.Core.Room.Invariant.{Inv, active_indexed}
use clear_space.Core.Room.Replay.{actor}

-- `t` is `s` with more points at its end, and finished perhaps.
pub record Grows (s t : Stroke) : Type 0 where
  pub id : t.id ≡ s.id
  pub author : t.author ≡ s.author
  pub color : t.color ≡ s.color
  pub thickness : t.thickness ≡ s.thickness
  pub stroke_order : t.stroke_order ≡ s.stroke_order
  pub points : (more : List Point) × (t.points ≡ s.points ++ more)

-- What may become of the strokes `xs` by an operation of `client`, which `wipes` the board or not.
pub data Change (client : ClientId) (wipes : Bool) (xs ys : List Stroke) : Type 0 where
  same : ys ≡ xs → Change client wipes xs ys
  began : (s : Stroke) → s.author ≡ client → ys ≡ xs ++ (s ∷ []) → Change client wipes xs ys
  changed :
      (i : ℕ) (s : Stroke) (f : Stroke → Stroke)
      → get_elem? xs i ≡ some s
      → s.author ≡ client
      → s.finished ≡ false
      → Grows s (f s)
      → ys ≡ modify xs i f
      → Change client wipes xs ys
  cleared : wipes ≡ true → ys ≡ [] → Change client wipes xs ys

-- Only the `clear` event empties the board.
abbrev pub is_clear : Op → Bool
is_clear (applies now client clear) = true
is_clear _ = false

add_point-Grows : (p : Point) (s : Stroke) → Grows s (add_point p s)
add_point-Grows p s = record {
  id = refl;
  author = refl;
  color = refl;
  thickness = refl;
  stroke_order = refl;
  points = (p ∷ [], refl);
}

finish-Grows : (s : Stroke) → Grows s (finish s)
finish-Grows s = record {
  id = refl;
  author = refl;
  color = refl;
  thickness = refl;
  stroke_order = refl;
  points = ([], sym (append-nil s.points));
}

stays-Grows : (s : Stroke) → Grows s s
stays-Grows s = record {
  id = refl;
  author = refl;
  color = refl;
  thickness = refl;
  stroke_order = refl;
  points = ([], sym (append-nil s.points));
}

module _ (r : Room) (client : ClientId) (wipes : Bool) (v : Inv r) where
  abbrev Changes : Room → Type 0
  Changes q = Change client wipes r.board.strokes q.board.strokes

  active_Change :
      (sid i : ℕ) (f : Stroke → Stroke)
      → find r.active_stroke_by_client client ≡ some sid
      → find r.stroke_index_by_id sid ≡ some i
      → ((s : Stroke) → Grows s (f s))
      → Change client wipes r.board.strokes (modify r.board.strokes i f)
  active_Change sid i f e ei grows =
      let (j, s, ej, es, ea, ef) = v.active.opened client sid e in
      let here : get_elem? r.board.strokes i ≡ some s = ground arith in
      changed i s f here ea ef (grows s) refl

  begin-Change :
      (c : Color) (t : Thickness) (p : Point) → Changes (apply_stroke_begin r client c t p).0
  unfolding apply_stroke_begin
  begin-Change c t p = elim (Option-cases (find r.active_stroke_by_client client)) [
    | inr (sid, e) ↦ rw (e, apply_stroke_begin) (same refl)
    | inl e ↦ rw (e, apply_stroke_begin) (began _ refl refl)
  ]

  point-Change : (p : Point) → Changes (apply_stroke_point r client p).0
  unfolding apply_stroke_point
  point-Change p = elim (Option-cases (find r.active_stroke_by_client client)) [
    | inl e ↦ rw (e, apply_stroke_point) (same refl)
    | inr (sid, e) ↦
        let (i, ei) = active_indexed r client sid v e in
        rw (e, ei, apply_stroke_point) (active_Change sid i (add_point p) e ei (add_point-Grows p))
  ]

  end-Change : Changes (apply_stroke_end r client).0
  unfolding apply_stroke_end
  end-Change = elim (Option-cases (find r.active_stroke_by_client client)) [
    | inl e ↦ rw (e, apply_stroke_end) (same refl)
    | inr (sid, e) ↦
        let (i, ei) = active_indexed r client sid v e in
        rw (e, ei, apply_stroke_end) (active_Change sid i finish e ei finish-Grows)
  ]

  ended-Change :
      (o : Option ℕ) → find r.active_stroke_by_client client ≡ o → Changes (end_active r client o).0
  unfolding end_active
  ended-Change none e = same refl
  ended-Change (some sid) e =
      let (i, ei) = active_indexed r client sid v e in
      rw (ei, finish_indexed) (active_Change sid i finish e ei finish-Grows)

module _ (r : Room) (client : ClientId) (v : Inv r) where
  event-Change :
      (now : TimePoint) (ev : EventPayload)
      → Change client
          (is_clear (applies now client ev))
          r.board.strokes
          (apply_event r now client ev).0.board.strokes
  unfolding apply_event
  event-Change now (stroke_begin c t p) = begin-Change r client false v c t p
  event-Change now (stroke_point p) = point-Change r client false v p
  event-Change now stroke_end = end-Change r client false v
  event-Change now (cursor_move p) = unfold apply_cursor_move in ground (arith, same)
  event-Change now clear = unfold apply_clear in cleared refl refl

step-Change :
    (r : Room) (op : Op)
    → Inv r
    → Change (actor op) (is_clear op) r.board.strokes (step r op).0.board.strokes
unfolding step
step-Change r (joins client) v = unfold join in same refl
step-Change r (leaves client) v =
    unfold leave in
    elim (Bool-cases (contains r.members client)) [
      | inr m ↦ rw m (same refl)
      | inl m ↦ rw m (
          unfold forget in
          ended-Change r client false v (find r.active_stroke_by_client client) refl)
    ]
step-Change r (applies now client ev) v =
    unfold apply ensure_member in
    elim (Bool-cases (contains r.members client)) [
      | inr m ↦ rw (m, apply) (same refl)
      | inl m ↦ rw (m, apply) (event-Change r client v now ev)
    ]

-- What stands at a place of the board after a change that does not wipe it.
Change-kept :
    (client : ClientId) (xs ys : List Stroke) (i : ℕ) (s : Stroke)
    → Change client false xs ys
    → get_elem? xs i ≡ some s
    → (t : Stroke) × (get_elem? ys i ≡ some t)
      × Grows s t
      × (s.finished ≡ true → t ≡ s)
      × ((s.author == client) ≡ false → t ≡ s)
Change-kept client xs ys i s (same e) h = (s, rw e h, stays-Grows s, (λ _. refl), (λ _. refl))
Change-kept client xs ys i s (began y _ e) h = (
  s,
  rw e (ground (arith, get_elem?-snoc xs y i, get_elem?-lt xs i s)),
  stays-Grows s,
  (λ _. refl),
  (λ _. refl),
)
Change-kept client xs ys i s (changed j y f at ea ef g e) h = elim (Bool-cases (i == j)) [
  | inr far ↦
      (s, rw e (ground (arith, get_elem?-modify xs j i f)), stays-Grows s, (λ _. refl), (λ _. refl))
  | inl here ↦
      let eq : y ≡ s = ground arith in
      (
        f s,
        rw e (ground (arith, get_elem?-modify xs j i f)),
        subst (λ z. Grows z (f z)) eq g,
        (λ done. absurd (cc (ap (λ (z : Stroke). z.finished) eq))),
        (λ other. absurd (cc (ap (λ (z : Stroke). z.author == client) eq, ==_refl client, ea))),
      )
]
Change-kept client xs ys i s (cleared w e) h = absurd (cc)

-- Unless the board is cleared, each stroke keeps its place, its attributes and the points that it has;
-- a finished stroke, and one of another author than the acting client, does not change at all.
pub stroke_kept :
    (r : Room) (op : Op) (i : ℕ) (s : Stroke)
    → Inv r
    → is_clear op ≡ false
    → get_elem? r.board.strokes i ≡ some s
    → (t : Stroke) × (get_elem? (step r op).0.board.strokes i ≡ some t)
      × Grows s t
      × (s.finished ≡ true → t ≡ s)
      × ((s.author == actor op) ≡ false → t ≡ s)
stroke_kept r op i s v plain h =
    Change-kept (actor op) _ _ i s
      (subst (λ w. Change (actor op) w r.board.strokes (step r op).0.board.strokes) plain
        (step-Change r op v))
      h
