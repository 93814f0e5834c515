-- ===== src/Core/Room/Order.antt =====
-- The order numbers of the strokes, `strokeOrder`, as they lie in `board_.strokes`.
use clear_space.Prelude.{
  ℕ, ◌+◌, ◌≤◌, ◌<◌, ◌≡◌, inl, inr, some, List, [], ◌∷◌, ◌++◌, arith, ap, ◌∙◌, get_elem?, modify,
  get_elem?-lt,
}
use clear_space.Prelude.Map.{Map}
use clear_space.Core.Types.{Stroke}
use clear_space.Core.Room.Index.{IsIndexed, snoc_cases, modify_cases}

-- Strokes lie in the order in which they were begun.
pub record IsOrdered (strokes : List Stroke) (next_seq : ℕ) : Type 0 where
  pub recent : (i : ℕ) (s : Stroke) → get_elem? strokes i ≡ some s → s.stroke_order < next_seq
  pub ascending :
      (i j : ℕ) (s t : Stroke)
      → get_elem? strokes i ≡ some s
      → get_elem? strokes j ≡ some t
      → i < j
      → (s.stroke_order < t.stroke_order) × (s.id < t.id)

pub nil-IsOrdered : (next_seq : ℕ) → IsOrdered [] next_seq
nil-IsOrdered next_seq = record {
  recent = λ i s h. absurd (cc);
  ascending = λ i j s t h k lt. absurd (cc);
}

module _ (xs : List Stroke) (next_seq : ℕ) (v : IsOrdered xs next_seq) where
  pub later-IsOrdered : (n : ℕ) → next_seq ≤ n → IsOrdered xs n
  later-IsOrdered n h = record {
    recent = λ i s e. omega (arith, v.recent i s e);
    ascending = v.ascending;
  }

  pub snoc-IsOrdered :
      (index : Map ℕ) (next_id : ℕ) (y : Stroke)
      → IsIndexed xs index next_id
      → y.id ≡ next_id
      → y.stroke_order ≡ next_seq
      → IsOrdered (xs ++ (y ∷ [])) (next_seq + 1)
  snoc-IsOrdered index next_id y ix eid eorder = record { recent = recent'; ascending = ascending' }
    where
      recent' :
          (i : ℕ) (s : Stroke)
          → get_elem? (xs ++ (y ∷ [])) i ≡ some s
          → s.stroke_order < next_seq + 1
      recent' i s h = elim (snoc_cases xs y i s h) [
        | inl (_, e) ↦ omega (arith, ap (λ (z : Stroke). z.stroke_order) e)
        | inr e ↦ omega (arith, v.recent i s e)
      ]

      ascending' :
          (i j : ℕ) (s t : Stroke)
          → get_elem? (xs ++ (y ∷ [])) i ≡ some s
          → get_elem? (xs ++ (y ∷ [])) j ≡ some t
          → i < j
          → (s.stroke_order < t.stroke_order) × (s.id < t.id)
      ascending' i j s t h k lt = elim (snoc_cases xs y j t k) [
        | inl (at_end, e) ↦ elim (snoc_cases xs y i s h) [
          | inl (here, _) ↦ absurd (omega arith)
          | inr old ↦ omega (
            arith,
            ap (λ (z : Stroke). z.stroke_order) e,
            ap (λ (z : Stroke). z.id) e,
            v.recent i s old,
            ix.fresh i s old,
          )
        ]
        | inr new ↦ elim (snoc_cases xs y i s h) [
          | inl (here, _) ↦ absurd (omega (arith, get_elem?-lt xs j t new))
          | inr old ↦ v.ascending i j s t old new lt
        ]
      ]

  pub modify-IsOrdered :
      (j : ℕ) (f : Stroke → Stroke)
      → ((s : Stroke) → (f s).id ≡ s.id)
      → ((s : Stroke) → (f s).stroke_order ≡ s.stroke_order)
      → IsOrdered (modify xs j f) next_seq
  modify-IsOrdered j f kid korder = record { recent = recent'; ascending = ascending' }
    where
      same :
          (i : ℕ) (s : Stroke)
          → get_elem? (modify xs j f) i ≡ some s
          → (t : Stroke) × (get_elem? xs i ≡ some t)
            × (s.id ≡ t.id)
            × (s.stroke_order ≡ t.stroke_order)
      same i s h =
          let (t, at, which) = modify_cases xs j i f s h in
          elim which [
            | inl (_, e) ↦ (
              t,
              at,
              ap (λ (z : Stroke). z.id) e ∙ kid t,
              ap (λ (z : Stroke). z.stroke_order) e ∙ korder t,
            )
            | inr (_, e) ↦
                (t, at, ap (λ (z : Stroke). z.id) e, ap (λ (z : Stroke). z.stroke_order) e)
          ]

      recent' :
          (i : ℕ) (s : Stroke) → get_elem? (modify xs j f) i ≡ some s → s.stroke_order < next_seq
      recent' i s h = let (t, at, _, e) = same i s h in omega (arith, v.recent i t at)

      ascending' :
          (i k : ℕ) (s t : Stroke)
          → get_elem? (modify xs j f) i ≡ some s
          → get_elem? (modify xs j f) k ≡ some t
          → i < k
          → (s.stroke_order < t.stroke_order) × (s.id < t.id)
      ascending' i k s t h g lt =
          let (s', at, e, o) = same i s h in
          let (t', at', e', o') = same k t g in omega (arith, v.ascending i k s' t' at at' lt)
