-- ===== src/Persistence/Codec/RoundTrip.antt =====
-- What was written is read back.
use clear_space.Prelude.{
  ◌%◌, ◌^◌, ◌<◌, ◌≡◌, refl, ◌∙◌, Bool, true, false, not, ◌==◌, List, [], ◌∷◌, ◌++◌, append-nil,
  append_assoc, arith, if◌then◌else◌, length, All,
}
use clear_space.Core.Types.{Point, Stroke}
use clear_space.Persistence.Codec.{
  returned, read_points, read_stroke, read_strokes, read_body, at_end, serialize_strokes,
  deserialize_strokes,
}
use clear_space.Persistence.Codec.Readers.{Decodes, read_le-Decodes}
use clear_space.Persistence.Codec.Write.{
  encode_points, encode_stroke, encode_strokes, flag, serialize_strokes-encode,
}

-- The fields lie within their machine types.
abbrev pub IsPoint : Point → Type 0
IsPoint p = (p.x < 2 ^ 32) × (p.y < 2 ^ 32)

pub record IsStroke (s : Stroke) : Type 0 where
  pub id : s.id < 2 ^ 64
  pub author : s.author < 2 ^ 64
  pub color : s.color < 2 ^ 8
  pub thickness : s.thickness < 2 ^ 8
  pub stroke_order : s.stroke_order < 2 ^ 64
  pub count : length s.points < 2 ^ 32
  pub points : All IsPoint s.points

-- What the loop over the points has read, after the points in `out`.
read_points-Decodes :
    (ps out : List Point)
    → All IsPoint ps
    → Decodes (λ p. read_points (length ps) p out) (encode_points ps) (out ++ ps)
unfolding read_points encode_points
read_points-Decodes [] out h = λ rest. rw append-nil
read_points-Decodes (p ∷ ps) out h = λ rest. simp append_assoc (
    rw (read_le-Decodes 4 p.x (omega arith), read_le-Decodes 4 p.y (omega arith))
      (read_points-Decodes ps (out ++ (p ∷ [])) h.1 rest ∙ rw (append_assoc out (p ∷ []) ps)))

unflag : (b : Bool) → not ((if b then 1 else 0) == 0) ≡ b
unflag true = refl
unflag false = refl

flag_fits : (s : Stroke) → flag s < 256 ^ 1
flag_fits s = ground arith

read_stroke-Decodes : (s : Stroke) → IsStroke s → Decodes read_stroke (encode_stroke s) s
unfolding read_stroke encode_stroke
read_stroke-Decodes s v rest =
    let count : length s.points % 2 ^ 32 ≡ length s.points = omega (arith, v.count) in
    simp append_assoc (
      rw (
        read_le-Decodes 8 s.id v.id,
        read_le-Decodes 8 s.author v.author,
        read_le-Decodes 1 s.color v.color,
        read_le-Decodes 1 s.thickness v.thickness,
        read_le-Decodes 8 s.stroke_order v.stroke_order,
        read_le-Decodes 1 (flag s) (flag_fits s),
        count,
        read_le-Decodes 4 (length s.points) v.count,
        read_points-Decodes s.points [] v.points,
        unflag s.finished,
      ))

read_strokes-Decodes :
    (ss out : List Stroke)
    → All IsStroke ss
    → Decodes (λ p. read_strokes (length ss) p out) (encode_strokes ss) (out ++ ss)
unfolding read_strokes encode_strokes
read_strokes-Decodes [] out h = λ rest. rw append-nil
read_strokes-Decodes (s ∷ ss) out h = λ rest. simp append_assoc (
    rw (read_stroke-Decodes s h.0)
      (read_strokes-Decodes ss (out ++ (s ∷ [])) h.1 rest ∙ rw (append_assoc out (s ∷ []) ss)))

-- `deserializeStrokes` returns the strokes that `serializeStrokes` was given, if each field lies within
-- its machine type and the vectors have fewer than 2 ^ 32 elements.
pub deserialize-serialize :
    (ss : List Stroke)
    → All IsStroke ss
    → length ss < 2 ^ 32
    → deserialize_strokes (serialize_strokes ss) ≡ returned ss
unfolding deserialize_strokes read_body at_end
deserialize-serialize ss h n =
    let count : length ss % 2 ^ 32 ≡ length ss = omega arith in
    rw (
      serialize_strokes-encode,
      read_le-Decodes 4 1 (omega arith),
      count,
      read_le-Decodes 4 (length ss) n,
      read_strokes-Decodes ss [] h,
    )
