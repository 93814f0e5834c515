-- ===== src/Persistence/Codec/Readers.antt =====
-- Readers in sequence: three rules for a step followed by another, by which the theorems about the
-- reader of a snapshot are put together.
use mathlib.Core.Path.{subst}
use clear_space.Prelude.{
  ℕ, ◌^◌, ◌≤◌, ◌<◌, ◌≡◌, refl, ◌⊎◌, inl, inr, String, List, [], ◌++◌, append_assoc, arith, length,
  take, drop, All, length-append, take-append_exact, drop-append_exact, take-append_le,
  drop-append_le, length-take_le, All-take, All-drop,
}
use clear_space.Persistence.Codec.{Outcome, returned, thrown, ◌>>=◌, le_bytes, le_value, read_le}
use clear_space.Persistence.Codec.Bytes.{IsByte, length-le_bytes, le_value-le_bytes, le_value-lt}

abbrev pub Reader {ℓ} : Type ℓ → Type ℓ
Reader A = List ℕ → Outcome (A × List ℕ)

abbrev pub chain {ℓ κ} : {A : Type ℓ} {B : Type κ} → Reader A → (A → Reader B) → Reader B
chain m k p = m p >>= λ t. k t.0 t.1

abbrev pub pure {ℓ} : {A : Type ℓ} → A → Reader A
pure a p = returned (a, p)

pub Outcome-cases {ℓ} :
    {A : Type ℓ} (o : Outcome A) → ((a : A) × (o ≡ returned a)) ⊎ ((s : String) × (o ≡ thrown s))
Outcome-cases (returned a) = inl (a, refl)
Outcome-cases (thrown s) = inr (s, refl)

pub >>=-eq-returned {ℓ κ} :
    {A : Type ℓ} {B : Type κ} (m : Outcome A) (f : A → Outcome B) {b : B}
    → (m >>= f) ≡ returned b
    → (a : A) × (m ≡ returned a) × (f a ≡ returned b)
>>=-eq-returned (returned a) f h = (a, refl, h)
>>=-eq-returned (thrown s) f h = absurd (cc)

-- `m` reads `a` from `bs`, and leaves what follows.
abbrev pub Decodes {ℓ} : {A : Type ℓ} → Reader A → List ℕ → A → Type ℓ
Decodes m bs a = (rest : List ℕ) → m (bs ++ rest) ≡ returned (a, rest)

-- What `m` reads does not depend on what follows.
abbrev pub Extends {ℓ} : {A : Type ℓ} → Reader A → Type ℓ
Extends {A} m =
    (p more : List ℕ) (a : A) (rest : List ℕ)
    → m p ≡ returned (a, rest)
    → m (p ++ more) ≡ returned (a, rest ++ more)

-- From bytes `m` reads only values with the property `P`, and leaves bytes.
abbrev pub Yields {ℓ κ} : {A : Type ℓ} → Reader A → (A → Type κ) → Type (ℓ ⊔ κ)
Yields {A} m P =
    (p : List ℕ) (a : A) (rest : List ℕ)
    → m p ≡ returned (a, rest)
    → All IsByte p
    → P a × All IsByte rest

module _ {ℓ κ} {A : Type ℓ} {B : Type κ} (m : Reader A) (k : A → Reader B) where
  pub chain-Decodes :
      (bs cs : List ℕ) (a : A) (b : B)
      → Decodes m bs a
      → Decodes (k a) cs b
      → Decodes (chain m k) (bs ++ cs) b
  chain-Decodes bs cs a b hm hk rest = rw (append_assoc bs cs rest, hm (cs ++ rest)) (hk rest)

  pub chain-Extends : Extends m → ((a : A) → Extends (k a)) → Extends (chain m k)
  chain-Extends hm hk p more b rest h =
      let ((a, p1), e, f) = >>=-eq-returned (m p) (λ t. k t.0 t.1) h in
      rw (hm p more a p1 e) (hk a p1 more b rest f)

  pub chain-Yields {μ ν} :
      (P : A → Type μ) (Q : B → Type ν)
      → Yields m P
      → ((a : A) → P a → Yields (k a) Q)
      → Yields (chain m k) Q
  chain-Yields P Q hm hk p b rest h bytes =
      let ((a, p1), e, f) = >>=-eq-returned (m p) (λ t. k t.0 t.1) h in
      let (pa, bytes1) = hm p a p1 e bytes in hk a pa p1 b rest f bytes1

pub pure-Decodes {ℓ} : {A : Type ℓ} (a : A) → Decodes (pure a) [] a
pure-Decodes a rest = refl

pub pure-Extends {ℓ} : {A : Type ℓ} (a : A) → Extends (pure a)
pure-Extends a p more b rest h = ground arith

pub pure-Yields {ℓ κ} : {A : Type ℓ} (P : A → Type κ) (a : A) → P a → Yields (pure a) P
pure-Yields P a pa p b rest e bytes =
    (subst P (ground arith) pa, subst (All IsByte) (ground arith) bytes)

take_whole : (n : ℕ) (bs rest : List ℕ) → length bs ≡ n → take n (bs ++ rest) ≡ bs
take_whole n bs rest e = subst (λ k. take k (bs ++ rest) ≡ bs) e (take-append_exact bs rest)

drop_whole : (n : ℕ) (bs rest : List ℕ) → length bs ≡ n → drop n (bs ++ rest) ≡ rest
drop_whole n bs rest e = subst (λ k. drop k (bs ++ rest) ≡ rest) e (drop-append_exact bs rest)

-- What a successful read says: there were enough bytes.
read_le_inv :
    (w : ℕ) (p : List ℕ) (a : ℕ) (rest : List ℕ)
    → read_le w p ≡ returned (a, rest)
    → (w ≤ length p) × (a ≡ le_value (take w p)) × (rest ≡ drop w p)
unfolding read_le
read_le_inv w p a rest h = ground arith

read_le_enough :
    (w : ℕ) (p : List ℕ) → w ≤ length p → read_le w p ≡ returned (le_value (take w p), drop w p)
unfolding read_le
read_le_enough w p h = ground arith

pub read_le-Decodes : (w v : ℕ) → v < 256 ^ w → Decodes (read_le w) (le_bytes w v) v
read_le-Decodes w v h rest = rw (
  read_le_enough w (le_bytes w v ++ rest)
      (omega (arith, length-append (le_bytes w v) rest, length-le_bytes w v)),
  take_whole w (le_bytes w v) rest (length-le_bytes w v),
  drop_whole w (le_bytes w v) rest (length-le_bytes w v),
  le_value-le_bytes w v h,
)

pub read_le-Extends : (w : ℕ) → Extends (read_le w)
read_le-Extends w p more a rest h =
    let (enough, ea, er) = read_le_inv w p a rest h in
    rw (
      read_le_enough w (p ++ more) (omega (arith, length-append p more)),
      take-append_le w p more enough,
      drop-append_le w p more enough,
      ea,
      er,
    )

pub read_le-Yields : (w : ℕ) → Yields (read_le w) (λ v. v < 256 ^ w)
read_le-Yields w p a rest h bytes =
    let (enough, ea, er) = read_le_inv w p a rest h in
    let bound = le_value-lt (take w p) (All-take IsByte w p bytes) in
    let whole = length-take_le w p enough in
    (
      rw ea (subst (λ k. le_value (take w p) < 256 ^ k) whole bound),
      rw er (All-drop IsByte w p bytes),
    )
