-- ===== src/Core/Room/Index.antt =====
-- The vector of strokes with its index by id, `board_.strokes` and `strokeIndexById_`.
use clear_space.Prelude.{
  ℕ, ◌+◌, ◌<◌, ◌≡◌, ap, ◌⊎◌, inl, inr, false, some, List, [], ◌∷◌, ◌++◌, arith, ◌==◌, Bool-cases,
  Option-cases, length, get_elem?, modify, get_elem?-snoc, get_elem?-modify, get_elem?-lt,
}
use clear_space.Prelude.Map.{Map, find, assign, find-assign, find-nil}
use clear_space.Core.Types.{Stroke}

-- The index is the inverse of the ids, which are below the next one.
pub record IsIndexed (strokes : List Stroke) (index : Map ℕ) (next_id : ℕ) : Type 0 where
  pub indexed :
      (sid i : ℕ)
      → find index sid ≡ some i
      → (s : Stroke) × (get_elem? strokes i ≡ some s) × (s.id ≡ sid)
  pub found : (i : ℕ) (s : Stroke) → get_elem? strokes i ≡ some s → find index s.id ≡ some i
  pub fresh : (i : ℕ) (s : Stroke) → get_elem? strokes i ≡ some s → s.id < next_id

pub nil-IsIndexed : (next_id : ℕ) → IsIndexed [] [] next_id
nil-IsIndexed next_id = record {
  indexed = λ sid i h. cc (find-nil {V = ℕ} sid);
  found = λ i s h. cc;
  fresh = λ i s h. absurd (cc);
}

-- What stands at a place of a vector that was extended.
pub snoc_cases :
    (xs : List Stroke) (y : Stroke) (i : ℕ) (s : Stroke)
    → get_elem? (xs ++ (y ∷ [])) i ≡ some s
    → ((i ≡ length xs) × (s ≡ y)) ⊎ (get_elem? xs i ≡ some s)
snoc_cases xs y i s h = ground (arith, get_elem?-snoc xs y i)

-- What stands at a place of a vector of which one element was changed.
pub modify_cases :
    (xs : List Stroke) (j i : ℕ) (f : Stroke → Stroke) (s : Stroke)
    → get_elem? (modify xs j f) i ≡ some s
    → (t : Stroke) × (get_elem? xs i ≡ some t)
      × (((i ≡ j) × (s ≡ f t)) ⊎ (((i == j) ≡ false) × (s ≡ t)))
modify_cases xs j i f s h = elim (Option-cases (get_elem? xs i)) [
  | inl e ↦ ground (arith, get_elem?-modify xs j i f)
  | inr (t, e) ↦ (t, e, ground (arith, get_elem?-modify xs j i f))
]

module _ (xs : List Stroke) (index : Map ℕ) (next : ℕ) (v : IsIndexed xs index next) where
  pub snoc-IsIndexed :
      (y : Stroke)
      → y.id ≡ next
      → IsIndexed (xs ++ (y ∷ [])) (assign index next (length xs)) (next + 1)
  snoc-IsIndexed y e = record { indexed = indexed'; found = found'; fresh = fresh' }
    where
      indexed' :
          (sid i : ℕ)
          → find (assign index next (length xs)) sid ≡ some i
          → (s : Stroke) × (get_elem? (xs ++ (y ∷ [])) i ≡ some s) × (s.id ≡ sid)
      indexed' sid i h = elim (Bool-cases (next == sid)) [
        | inl hit ↦ (
          y,
          ground (arith, find-assign index next (length xs) sid, get_elem?-snoc xs y i),
          ground arith,
        )
        | inr miss ↦
            let old : find index sid ≡ some i =
              ground (arith, find-assign index next (length xs) sid) in
            let (s, at, same) = v.indexed sid i old in
            (s, ground (arith, get_elem?-snoc xs y i, get_elem?-lt xs i s), same)
      ]

      found' :
          (i : ℕ) (s : Stroke)
          → get_elem? (xs ++ (y ∷ [])) i ≡ some s
          → find (assign index next (length xs)) s.id ≡ some i
      found' i s h = ground (
        arith,
        snoc_cases xs y i s h,
        find-assign index next (length xs) s.id,
        v.found i s,
        v.fresh i s,
        ap (λ (t : Stroke). t.id) {x = s} {y = y},
      )

      fresh' : (i : ℕ) (s : Stroke) → get_elem? (xs ++ (y ∷ [])) i ≡ some s → s.id < next + 1
      fresh' i s h = ground (arith, snoc_cases xs y i s h, v.fresh i s)

  pub modify-IsIndexed :
      (j : ℕ) (f : Stroke → Stroke)
      → ((s : Stroke) → (f s).id ≡ s.id)
      → IsIndexed (modify xs j f) index next
  modify-IsIndexed j f keep = record { indexed = indexed'; found = found'; fresh = fresh' }
    where
      indexed' :
          (sid i : ℕ)
          → find index sid ≡ some i
          → (s : Stroke) × (get_elem? (modify xs j f) i ≡ some s) × (s.id ≡ sid)
      indexed' sid i h =
          let (s, at, same) = v.indexed sid i h in
          elim (Bool-cases (i == j)) [
            | inl hit ↦ (f s, ground (arith, get_elem?-modify xs j i f), ground (arith, keep s))
            | inr miss ↦ (s, ground (arith, get_elem?-modify xs j i f), same)
          ]

      found' :
          (i : ℕ) (s : Stroke) → get_elem? (modify xs j f) i ≡ some s → find index s.id ≡ some i
      found' i s h =
          let (t, at, which) = modify_cases xs j i f s h in ground (arith, v.found i t at, keep t)

      fresh' : (i : ℕ) (s : Stroke) → get_elem? (modify xs j f) i ≡ some s → s.id < next
      fresh' i s h =
          let (t, at, which) = modify_cases xs j i f s h in ground (arith, v.fresh i t at, keep t)
