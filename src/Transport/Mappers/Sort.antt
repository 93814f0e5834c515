-- ===== src/Transport/Mappers/Sort.antt =====
-- std::sort by a numeric key. Lists with distinct keys that hold the same items sort alike.
use clear_space.Prelude.{
  ℕ, ◌≤◌, ◌<◌, ◌≡◌, refl, sym, ◌∙◌, Option, none, some, List, [], ◌∷◌, arith, leb, ◌==◌,
  if◌then◌else◌,
}

module _ {ℓ} {A : Type ℓ} (key : A → ℕ) where
  insert_by : A → List A → List A
  insert_by x [] = x ∷ []
  insert_by x (y ∷ ys) = if leb (key x) (key y) then x ∷ y ∷ ys else y ∷ insert_by x ys

  unfoldable pub sort_by : List A → List A
  unfolding insert_by
  sort_by [] = []
  sort_by (x ∷ xs) = insert_by x (sort_by xs)

  -- The first item with a key.
  unfoldable pub lookup_by : List A → ℕ → Option A
  lookup_by [] k = none
  lookup_by (x ∷ xs) k = if key x == k then some x else lookup_by xs k

  -- All keys lie above `b`, and they rise.
  abbrev IsAbove : ℕ → List A → Type 0
  IsAbove b [] = Unit {0}
  IsAbove b (x ∷ xs) = (b < key x) × IsAbove (key x) xs

  abbrev pub IsAscending : List A → Type 0
  IsAscending [] = Unit {0}
  IsAscending (x ∷ xs) = IsAbove (key x) xs

  abbrev pub HasDistinct : List A → Type ℓ
  HasDistinct [] = Unit {ℓ}
  HasDistinct (x ∷ xs) = (lookup_by xs (key x) ≡ none) × HasDistinct xs

module _ {A : Type 0} (key : A → ℕ) where
  lookup_by-insert_by :
      (x : A) (xs : List A) (k : ℕ)
      → lookup_by key (insert_by key x xs) k ≡ (if key x == k then some x else lookup_by key xs k)
  unfolding insert_by lookup_by
  lookup_by-insert_by x [] k = refl
  lookup_by-insert_by x (y ∷ ys) k = ground (arith, lookup_by-insert_by x ys k)

  pub lookup_by-sort_by :
      (xs : List A) (k : ℕ) → lookup_by key (sort_by key xs) k ≡ lookup_by key xs k
  unfolding sort_by lookup_by
  lookup_by-sort_by [] k = refl
  lookup_by-sort_by (x ∷ xs) k =
      lookup_by-insert_by x (sort_by key xs) k ∙ rw (lookup_by-sort_by xs k) refl

  insert_by-IsAbove :
      (b : ℕ) (x : A) (xs : List A)
      → b < key x
      → IsAbove key b xs
      → lookup_by key xs (key x) ≡ none
      → IsAbove key b (insert_by key x xs)
  unfolding insert_by lookup_by
  insert_by-IsAbove b x [] h a new = (h, tt)
  insert_by-IsAbove b x (y ∷ ys) h a new = ground (arith, insert_by-IsAbove (key y) x ys)

  insert_by-IsAscending :
      (x : A) (xs : List A)
      → IsAscending key xs
      → lookup_by key xs (key x) ≡ none
      → IsAscending key (insert_by key x xs)
  unfolding insert_by lookup_by
  insert_by-IsAscending x [] a new = tt
  insert_by-IsAscending x (y ∷ ys) a new = ground (arith, insert_by-IsAbove (key y) x ys)

  pub sort_by-IsAscending : (xs : List A) → HasDistinct key xs → IsAscending key (sort_by key xs)
  unfolding sort_by
  sort_by-IsAscending [] d = tt
  sort_by-IsAscending (x ∷ xs) d =
      insert_by-IsAscending x (sort_by key xs) (sort_by-IsAscending xs d.1)
        (lookup_by-sort_by xs (key x) ∙ d.0)

  above_misses :
      (b : ℕ) (xs : List A) (k : ℕ) → IsAbove key b xs → k ≤ b → lookup_by key xs k ≡ none
  unfolding lookup_by
  above_misses b [] k a h = refl
  above_misses b (x ∷ xs) k a h = ground (arith, above_misses (key x) xs k a.1)

  above_ext :
      (b c : ℕ) (xs ys : List A)
      → IsAbove key b xs
      → IsAbove key c ys
      → ((k : ℕ) → lookup_by key xs k ≡ lookup_by key ys k)
      → xs ≡ ys
  unfolding lookup_by
  above_ext b c [] [] a a' same = refl
  above_ext b c [] (y ∷ ys) a a' same = absurd (ground (arith, same (key y)))
  above_ext b c (x ∷ xs) [] a a' same = absurd (ground (arith, same (key x)))
  above_ext b c (x ∷ xs) (y ∷ ys) a a' same =
      let keys : key x ≡ key y = ground (
        arith,
        same (key x),
        same (key y),
        above_misses (key y) ys (key x) a'.1,
        above_misses (key x) xs (key y) a.1,
      ) in
      let heads : x ≡ y = ground (arith, same (key x)) in
      let rest : (k : ℕ) → lookup_by key xs k ≡ lookup_by key ys k = λ k.
        ground (arith, same k, above_misses (key x) xs k a.1, above_misses (key y) ys k a'.1) in
      let tails = above_ext (key x) (key y) xs ys a.1 a'.1 rest in cc (heads, tails)

  ascending_ext :
      (xs ys : List A)
      → IsAscending key xs
      → IsAscending key ys
      → ((k : ℕ) → lookup_by key xs k ≡ lookup_by key ys k)
      → xs ≡ ys
  unfolding lookup_by
  ascending_ext [] [] a a' same = refl
  ascending_ext [] (y ∷ ys) a a' same = absurd (ground (arith, same (key y)))
  ascending_ext (x ∷ xs) [] a a' same = absurd (ground (arith, same (key x)))
  ascending_ext (x ∷ xs) (y ∷ ys) a a' same =
      let keys : key x ≡ key y = ground (
        arith,
        same (key x),
        same (key y),
        above_misses (key y) ys (key x) a',
        above_misses (key x) xs (key y) a,
      ) in
      let heads : x ≡ y = ground (arith, same (key x)) in
      let rest : (k : ℕ) → lookup_by key xs k ≡ lookup_by key ys k =
        λ k. ground (arith, same k, above_misses (key x) xs k a, above_misses (key y) ys k a') in
      let tails = above_ext (key x) (key y) xs ys a a' rest in cc (heads, tails)

  -- Two lists with distinct keys and the same item under each key sort to the same list.
  pub sort_by_canonical :
      (xs ys : List A)
      → HasDistinct key xs
      → HasDistinct key ys
      → ((k : ℕ) → lookup_by key xs k ≡ lookup_by key ys k)
      → sort_by key xs ≡ sort_by key ys
  sort_by_canonical xs ys d d' same =
      ascending_ext (sort_by key xs) (sort_by key ys) (sort_by-IsAscending xs d)
        (sort_by-IsAscending ys d')
        (λ k. lookup_by-sort_by xs k ∙ same k ∙ sym (lookup_by-sort_by ys k))
