-- ===== src/Persistence/Codec/Damage.antt =====
-- The reader of snapshots on bytes that it did not write: cut off, continued, or foreign.
use clear_space.Prelude.{
  ℕ, zero, suc, ◌+◌, ◌^◌, ◌<◌, ◌≡◌, ap, ◌∙◌, inl, inr, ◌==◌, List, [], ◌∷◌, ◌++◌, arith, Bool-cases,
  length, length-append, All, All-append, String,
}
use clear_space.Core.Types.{Point, Stroke}
use clear_space.Persistence.Codec.{
  returned, thrown, read_le, read_points, read_stroke, read_strokes, read_body, at_end,
  serialize_strokes, deserialize_strokes,
}
use clear_space.Persistence.Codec.Bytes.{IsByte}
use clear_space.Persistence.Codec.Readers.{
  Extends, Yields, chain-Extends, pure-Extends, pure-Yields, chain-Yields, read_le-Extends,
  read_le-Yields, >>=-eq-returned, Outcome-cases,
}
use clear_space.Persistence.Codec.RoundTrip.{IsPoint, IsStroke, deserialize-serialize}

read_points-Extends : (n : ℕ) (out : List Point) → Extends (λ p. read_points n p out)
unfolding read_points
read_points-Extends zero out = pure-Extends out
read_points-Extends (suc n) out =
    chain-Extends (read_le 4) _ (read_le-Extends 4)
      λ x. chain-Extends (read_le 4) _ (read_le-Extends 4) λ y. read_points-Extends n _

read_stroke-Extends : Extends read_stroke
unfolding read_stroke
read_stroke-Extends = chain-Extends (read_le 8) _ (read_le-Extends 8) λ id.
    chain-Extends (read_le 8) _ (read_le-Extends 8) λ author.
      chain-Extends (read_le 1) _ (read_le-Extends 1) λ color.
        chain-Extends (read_le 1) _ (read_le-Extends 1) λ thickness.
          chain-Extends (read_le 8) _ (read_le-Extends 8) λ order.
            chain-Extends (read_le 1) _ (read_le-Extends 1) λ flag.
              chain-Extends (read_le 4) _ (read_le-Extends 4) λ count.
                chain-Extends (λ p. read_points count p []) _ (read_points-Extends count [])
                  λ points. pure-Extends _

read_strokes-Extends : (n : ℕ) (out : List Stroke) → Extends (λ p. read_strokes n p out)
unfolding read_strokes
read_strokes-Extends zero out = pure-Extends out
read_strokes-Extends (suc n) out =
    chain-Extends read_stroke _ read_stroke-Extends λ s. read_strokes-Extends n (out ++ (s ∷ []))

read_points-Yields :
    (n : ℕ) (out : List Point)
    → All IsPoint out
    → Yields (λ p. read_points n p out) (λ ps. All IsPoint ps × (length ps ≡ length out + n))
unfolding read_points
read_points-Yields zero out h = pure-Yields _ out (h, omega arith)
read_points-Yields (suc n) out h = chain-Yields (read_le 4) _ _ _ (read_le-Yields 4) λ x hx.
    chain-Yields (read_le 4) _ _ _ (read_le-Yields 4) λ y hy p a rest e bytes.
      let point : Point = record { x = x; y = y } in
      let (found, left) =
        read_points-Yields n (out ++ (point ∷ []))
          (All-append IsPoint out (point ∷ []) h ((hx, hy), tt)) p a rest e bytes in
      ((found.0, omega (arith, found.1, length-append out (point ∷ []))), left)

read_stroke-Yields : Yields read_stroke IsStroke
unfolding read_stroke
read_stroke-Yields = chain-Yields (read_le 8) _ _ _ (read_le-Yields 8) λ id h1.
    chain-Yields (read_le 8) _ _ _ (read_le-Yields 8) λ author h2.
      chain-Yields (read_le 1) _ _ _ (read_le-Yields 1) λ color h3.
        chain-Yields (read_le 1) _ _ _ (read_le-Yields 1) λ thickness h4.
          chain-Yields (read_le 8) _ _ _ (read_le-Yields 8) λ order h5.
            chain-Yields (read_le 1) _ _ _ (read_le-Yields 1) λ flag h6.
              chain-Yields (read_le 4) _ _ _ (read_le-Yields 4) λ count h7.
                chain-Yields (λ p. read_points count p []) _ _ _ (read_points-Yields count [] tt)
                  λ points h8. pure-Yields IsStroke _ (record {
                    id = h1;
                    author = h2;
                    color = h3;
                    thickness = h4;
                    stroke_order = h5;
                    count = omega (arith, h7, h8.1);
                    points = h8.0;
                  })

read_strokes-Yields :
    (n : ℕ) (out : List Stroke)
    → All IsStroke out
    → Yields (λ p. read_strokes n p out) (λ ss. All IsStroke ss × (length ss ≡ length out + n))
unfolding read_strokes
read_strokes-Yields zero out h = pure-Yields _ out (h, omega arith)
read_strokes-Yields (suc n) out h =
    chain-Yields read_stroke _ _ _ read_stroke-Yields λ s hs p a rest e bytes.
      let (found, left) =
        read_strokes-Yields n (out ++ (s ∷ [])) (All-append IsStroke out (s ∷ []) h (hs, tt)) p a
          rest e bytes in
      ((found.0, omega (arith, found.1, length-append out (s ∷ []))), left)

-- What an accepted snapshot consists of.
record IsAccepted (bs : List ℕ) (ss : List Stroke) : Type 0 where
  count : ℕ
  p1 : List ℕ
  p2 : List ℕ
  version : read_le 4 bs ≡ returned (1, p1)
  counted : read_le 4 p1 ≡ returned (count, p2)
  strokes : read_strokes count p2 [] ≡ returned (ss, [])

at_end_inv : (t : List Stroke × List ℕ) (ss : List Stroke) → at_end t ≡ returned ss → t ≡ (ss, [])
unfolding at_end
at_end_inv (strokes, []) ss h = ground arith
at_end_inv (strokes, b ∷ p) ss h = absurd (cc)

accepted :
    (bs : List ℕ) (ss : List Stroke) → deserialize_strokes bs ≡ returned ss → IsAccepted bs ss
unfolding deserialize_strokes read_body
accepted bs ss h =
    let ((version, p1), e1, h1) = >>=-eq-returned (read_le 4 bs) _ h in
    elim (Bool-cases (version == 1)) [
      | inr other ↦ absurd (ground (arith, h1))
      | inl one ↦
          let body : read_body p1 ≡ returned ss = ground (arith, h1) in
          let ((count, p2), e2, h2) = >>=-eq-returned (read_le 4 p1) _ body in
          let (t, e3, h3) = >>=-eq-returned (read_strokes count p2 []) _ h2 in
          record {
            count = count;
            p1 = p1;
            p2 = p2;
            version = ground arith;
            counted = e2;
            strokes = e3 ∙ ap returned (at_end_inv t ss h3);
          }
    ]

-- An accepted snapshot with more bytes behind it is refused.
pub deserialize_trailing :
    (bs : List ℕ) (ss : List Stroke) (x : ℕ) (more : List ℕ)
    → deserialize_strokes bs ≡ returned ss
    → deserialize_strokes (bs ++ (x ∷ more)) ≡ thrown "corrupted snapshot blob (trailing bytes)"
unfolding deserialize_strokes read_body at_end
deserialize_trailing bs ss x more h =
    let a = accepted bs ss h in
    rw (
      read_le-Extends 4 bs (x ∷ more) 1 a.p1 a.version,
      read_le-Extends 4 a.p1 (x ∷ more) a.count a.p2 a.counted,
      read_strokes-Extends a.count [] a.p2 (x ∷ more) ss [] a.strokes,
    )

-- A snapshot that was cut off anywhere is refused.
pub deserialize_truncated :
    (ss : List Stroke) (front : List ℕ) (x : ℕ) (back : List ℕ)
    → All IsStroke ss
    → length ss < 2 ^ 32
    → serialize_strokes ss ≡ front ++ (x ∷ back)
    → (msg : String) × (deserialize_strokes front ≡ thrown msg)
deserialize_truncated ss front x back h n cut = elim (Outcome-cases (deserialize_strokes front)) [
  | inr refused ↦ refused
  | inl (found, e) ↦ absurd (
      cc (
        deserialize-serialize ss h n,
        ap deserialize_strokes cut,
        deserialize_trailing front found x back e,
      ))
]

-- Whatever bytes are accepted, the strokes lie within their machine types, so that they can be written
-- again and read back.
pub deserialize-IsStroke :
    (bs : List ℕ) (ss : List Stroke)
    → All IsByte bs
    → deserialize_strokes bs ≡ returned ss
    → All IsStroke ss × (deserialize_strokes (serialize_strokes ss) ≡ returned ss)
deserialize-IsStroke bs ss bytes h =
    let a = accepted bs ss h in
    let (_, bytes1) = read_le-Yields 4 bs 1 a.p1 a.version bytes in
    let (small, bytes2) = read_le-Yields 4 a.p1 a.count a.p2 a.counted bytes1 in
    let (found, _) = read_strokes-Yields a.count [] tt a.p2 ss [] a.strokes bytes2 in
    (found.0, deserialize-serialize ss found.0 (omega (arith, small, found.1)))
