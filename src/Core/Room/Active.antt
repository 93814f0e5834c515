-- ===== src/Core/Room/Active.antt =====
-- `activeStrokeByClient_` against the strokes that are not finished.
use clear_space.Prelude.{
  ℕ, ◌≡◌, ap, inl, inr, false, none, some, List, [], ◌∷◌, ◌++◌, arith, ◌==◌, Bool-cases, length,
  get_elem?, modify, get_elem?-snoc, get_elem?-modify, get_elem?-lt,
}
use clear_space.Prelude.Map.{Map, find, assign, erase, find-assign, find-erase, find-nil}
use clear_space.Core.Types.{Stroke}
use clear_space.Core.Room.{finish}
use clear_space.Core.Room.Index.{IsIndexed, snoc_cases, modify_cases}

-- A client's active stroke is an open one of its own, and every open stroke is its author's active one.
pub record IsActive (strokes : List Stroke) (index active : Map ℕ) : Type 0 where
  pub opened :
      (client sid : ℕ)
      → find active client ≡ some sid
      → (i : ℕ) × (s : Stroke) × (find index sid ≡ some i)
        × (get_elem? strokes i ≡ some s)
        × (s.author ≡ client)
        × (s.finished ≡ false)
  pub owned :
      (i : ℕ) (s : Stroke)
      → get_elem? strokes i ≡ some s
      → s.finished ≡ false
      → find active s.author ≡ some s.id

pub nil-IsActive : IsActive [] [] []
nil-IsActive = record {
  opened = λ client sid h. absurd (cc (find-nil {V = ℕ} client));
  owned = λ i s h. absurd (cc);
}

module _ (xs : List Stroke) (index active : Map ℕ) (next : ℕ) (v : IsIndexed xs index next)
    (a : IsActive xs index active) where
  pub begin-IsActive :
      (client : ℕ) (y : Stroke)
      → find active client ≡ none
      → y.id ≡ next
      → y.author ≡ client
      → y.finished ≡ false
      → IsActive (xs ++ (y ∷ [])) (assign index next (length xs)) (assign active client next)
  begin-IsActive client y idle eid eauthor efinished = record { opened = opened'; owned = owned' }
    where
      opened' :
          (c sid : ℕ)
          → find (assign active client next) c ≡ some sid
          → (i : ℕ) × (s : Stroke) × (find (assign index next (length xs)) sid ≡ some i)
            × (get_elem? (xs ++ (y ∷ [])) i ≡ some s)
            × (s.author ≡ c)
            × (s.finished ≡ false)
      opened' c sid h = elim (Bool-cases (client == c)) [
        | inl hit ↦ (
          length xs,
          y,
          ground (arith, find-assign active client next c, find-assign index next (length xs) sid),
          ground (arith, get_elem?-snoc xs y (length xs)),
          ground arith,
          efinished,
        )
        | inr miss ↦
            let old : find active c ≡ some sid = ground (arith, find-assign active client next c) in
            let (i, s, ei, es, ea, ef) = a.opened c sid old in
            let (s', es', same) = v.indexed sid i ei in
            (
              i,
              s,
              ground (arith, find-assign index next (length xs) sid, v.fresh i s' es'),
              ground (arith, get_elem?-snoc xs y i, get_elem?-lt xs i s),
              ea,
              ef,
            )
      ]

      owned' :
          (i : ℕ) (s : Stroke)
          → get_elem? (xs ++ (y ∷ [])) i ≡ some s
          → s.finished ≡ false
          → find (assign active client next) s.author ≡ some s.id
      owned' i s h open_s = elim (snoc_cases xs y i s h) [
        | inl (_, e) ↦ ground (
          arith,
          find-assign active client next s.author,
          ap (λ (t : Stroke). t.id) e,
          ap (λ (t : Stroke). t.author) e,
        )
        | inr e ↦ ground (arith, find-assign active client next s.author, a.owned i s e)
      ]

  pub modify-IsActive :
      (j : ℕ) (f : Stroke → Stroke)
      → ((s : Stroke) → (f s).id ≡ s.id)
      → ((s : Stroke) → (f s).author ≡ s.author)
      → ((s : Stroke) → (f s).finished ≡ s.finished)
      → IsActive (modify xs j f) index active
  modify-IsActive j f kid kauthor kfinished = record { opened = opened'; owned = owned' }
    where
      opened' :
          (c sid : ℕ)
          → find active c ≡ some sid
          → (i : ℕ) × (s : Stroke) × (find index sid ≡ some i)
            × (get_elem? (modify xs j f) i ≡ some s)
            × (s.author ≡ c)
            × (s.finished ≡ false)
      opened' c sid h =
          let (i, s, ei, es, ea, ef) = a.opened c sid h in
          elim (Bool-cases (i == j)) [
            | inl hit ↦ (
              i,
              f s,
              ei,
              ground (arith, get_elem?-modify xs j i f),
              ground (arith, kauthor s),
              ground (arith, kfinished s),
            )
            | inr miss ↦ (i, s, ei, ground (arith, get_elem?-modify xs j i f), ea, ef)
          ]

      owned' :
          (i : ℕ) (s : Stroke)
          → get_elem? (modify xs j f) i ≡ some s
          → s.finished ≡ false
          → find active s.author ≡ some s.id
      owned' i s h open_s =
          let (t, at, which) = modify_cases xs j i f s h in
          elim which [
            | inl (_, e) ↦ rw e (
                rw (kid t, kauthor t)
                  (a.owned i t at (ground (arith, kfinished t, ap (λ (z : Stroke). z.finished) e))))
            | inr (_, e) ↦ rw e (a.owned i t at (ground (arith, ap (λ (z : Stroke). z.finished) e)))
          ]

  pub end-IsActive :
      (client sid j : ℕ)
      → find active client ≡ some sid
      → find index sid ≡ some j
      → IsActive (modify xs j finish) index (erase active client)
  end-IsActive client sid j act idx = record { opened = opened'; owned = owned' }
    where
      opened' :
          (c sid' : ℕ)
          → find (erase active client) c ≡ some sid'
          → (i : ℕ) × (s : Stroke) × (find index sid' ≡ some i)
            × (get_elem? (modify xs j finish) i ≡ some s)
            × (s.author ≡ c)
            × (s.finished ≡ false)
      opened' c sid' h =
          let old : find active c ≡ some sid' = ground (arith, find-erase active client c) in
          let (i, s, ei, es, ea, ef) = a.opened c sid' old in
          let (i0, s0, ei0, es0, ea0, ef0) = a.opened client sid act in
          (
            i,
            s,
            ei,
            ground (
              arith,
              get_elem?-modify xs j i finish,
              find-erase active client c,
              ap (λ (z : Stroke). z.author) {x = s} {y = s0},
            ),
            ea,
            ef,
          )

      owned' :
          (i : ℕ) (s : Stroke)
          → get_elem? (modify xs j finish) i ≡ some s
          → s.finished ≡ false
          → find (erase active client) s.author ≡ some s.id
      owned' i s h open_s =
          let (t, at, which) = modify_cases xs j i finish s h in
          elim which [
            | inl (_, e) ↦ absurd (cc (ap (λ (z : Stroke). z.finished) e))
            | inr (far, e) ↦ rw e (
                ground (
                  arith,
                  find-erase active client t.author,
                  a.owned i t at (ground (arith, ap (λ (z : Stroke). z.finished) e)),
                  v.found i t at,
                ))
          ]
