-- ===== src/Persistence/Codec/Write.antt =====
-- What `serializeStrokes` writes: the layout of a snapshot, version 1.
use clear_space.Prelude.{
  ℕ, ◌+◌, ◌*◌, ◌%◌, ◌^◌, ◌≡◌, refl, sym, ◌∙◌, List, [], ◌∷◌, ◌++◌, append-nil, append_assoc, arith,
  if◌then◌else◌, length, length-append, All, All-append,
}
use clear_space.Core.Types.{Point, Stroke}
use clear_space.Persistence.Codec.{
  le_bytes, append_le, append_points, append_stroke, append_strokes, serialize_strokes,
}
use clear_space.Persistence.Codec.Bytes.{IsByte, length-le_bytes, le_bytes-IsByte}

unfoldable pub encode_points : List Point → List ℕ
encode_points [] = []
encode_points (p ∷ ps) = le_bytes 4 p.x ++ (le_bytes 4 p.y ++ encode_points ps)

abbrev pub flag : Stroke → ℕ
flag s = if s.finished then 1 else 0

unfoldable pub encode_stroke : Stroke → List ℕ
encode_stroke s =
    le_bytes 8 s.id
    ++ (le_bytes 8 s.author
        ++ (le_bytes 1 s.color
            ++ (le_bytes 1 s.thickness
                ++ (le_bytes 8 s.stroke_order
                    ++ (le_bytes 1 (flag s)
                        ++ (le_bytes 4 (length s.points % 2 ^ 32)
                            ++ (encode_points s.points ++ [])))))))

unfoldable pub encode_strokes : List Stroke → List ℕ
encode_strokes [] = []
encode_strokes (s ∷ ss) = encode_stroke s ++ encode_strokes ss

append_points-encode :
    (buf : List ℕ) (ps : List Point) → append_points buf ps ≡ buf ++ encode_points ps
unfolding append_points encode_points append_le
append_points-encode buf [] = sym (append-nil buf)
append_points-encode buf (p ∷ ps) =
    append_points-encode ((buf ++ le_bytes 4 p.x) ++ le_bytes 4 p.y) ps ∙ simp append_assoc

append_stroke-encode : (buf : List ℕ) (s : Stroke) → append_stroke buf s ≡ buf ++ encode_stroke s
unfolding append_stroke encode_stroke append_le
append_stroke-encode buf s = rw append_points-encode (simp (append_assoc, append-nil))

append_strokes-encode :
    (buf : List ℕ) (ss : List Stroke) → append_strokes buf ss ≡ buf ++ encode_strokes ss
unfolding append_strokes encode_strokes
append_strokes-encode buf [] = sym (append-nil buf)
append_strokes-encode buf (s ∷ ss) =
    append_strokes-encode (append_stroke buf s) ss
    ∙ rw (append_stroke-encode buf s, append_assoc buf (encode_stroke s) (encode_strokes ss))

-- The bytes of a snapshot: version, number of strokes, strokes.
pub serialize_strokes-encode :
    (ss : List Stroke)
    → serialize_strokes ss
      ≡ le_bytes 4 1 ++ (le_bytes 4 (length ss % 2 ^ 32) ++ (encode_strokes ss ++ []))
unfolding serialize_strokes append_le
serialize_strokes-encode ss = rw append_strokes-encode (simp (append_assoc, append-nil))

-- The size of a snapshot in bytes: 31 for each stroke and 8 for each of its points.
abbrev pub size_strokes : List Stroke → ℕ
size_strokes [] = 0
size_strokes (s ∷ ss) = 31 + 8 * length s.points + size_strokes ss

length-encode_points : (ps : List Point) → length (encode_points ps) ≡ 8 * length ps
unfolding encode_points
length-encode_points [] = refl
length-encode_points (p ∷ ps) = omega (
  arith,
  length-append (le_bytes 4 p.x) (le_bytes 4 p.y ++ encode_points ps),
  length-append (le_bytes 4 p.y) (encode_points ps),
  length-le_bytes 4 p.x,
  length-le_bytes 4 p.y,
  length-encode_points ps,
)

length-encode_stroke : (s : Stroke) → length (encode_stroke s) ≡ 31 + 8 * length s.points
unfolding encode_stroke
length-encode_stroke s = simp (length-append, length-le_bytes, length-encode_points) (omega arith)

length-encode_strokes : (ss : List Stroke) → length (encode_strokes ss) ≡ size_strokes ss
unfolding encode_strokes
length-encode_strokes [] = refl
length-encode_strokes (s ∷ ss) = omega (
  arith,
  length-append (encode_stroke s) (encode_strokes ss),
  length-encode_stroke s,
  length-encode_strokes ss,
)

encode_points-IsByte : (ps : List Point) → All IsByte (encode_points ps)
unfolding encode_points
encode_points-IsByte [] = tt
encode_points-IsByte (p ∷ ps) =
    All-append IsByte (le_bytes 4 p.x) _ (le_bytes-IsByte 4 p.x)
      (All-append IsByte (le_bytes 4 p.y) _ (le_bytes-IsByte 4 p.y) (encode_points-IsByte ps))

encode_stroke-IsByte : (s : Stroke) → All IsByte (encode_stroke s)
unfolding encode_stroke
encode_stroke-IsByte s = All-append IsByte (le_bytes 8 s.id) _ (le_bytes-IsByte 8 s.id) (
    All-append IsByte (le_bytes 8 s.author) _ (le_bytes-IsByte 8 s.author) (
      All-append IsByte (le_bytes 1 s.color) _ (le_bytes-IsByte 1 s.color) (
        All-append IsByte (le_bytes 1 s.thickness) _ (le_bytes-IsByte 1 s.thickness) (
          All-append IsByte (le_bytes 8 s.stroke_order) _ (le_bytes-IsByte 8 s.stroke_order) (
            All-append IsByte (le_bytes 1 (flag s)) _ (le_bytes-IsByte 1 (flag s)) (
              All-append IsByte (le_bytes 4 (length s.points % 2 ^ 32)) _
                (le_bytes-IsByte 4 (length s.points % 2 ^ 32))
                (All-append IsByte (encode_points s.points) [] (encode_points-IsByte s.points)
                  tt)))))))

encode_strokes-IsByte : (ss : List Stroke) → All IsByte (encode_strokes ss)
unfolding encode_strokes
encode_strokes-IsByte [] = tt
encode_strokes-IsByte (s ∷ ss) =
    All-append IsByte (encode_stroke s) _ (encode_stroke-IsByte s) (encode_strokes-IsByte ss)

-- A snapshot consists of bytes, 8 and then 31 for each stroke and 8 for each of its points.
pub serialize_shape :
    (ss : List Stroke)
    → All IsByte (serialize_strokes ss) × (length (serialize_strokes ss) ≡ 8 + size_strokes ss)
serialize_shape ss = rw serialize_strokes-encode (
  All-append IsByte (le_bytes 4 1) _ (le_bytes-IsByte 4 1) (
      All-append IsByte (le_bytes 4 (length ss % 2 ^ 32)) _ (le_bytes-IsByte 4 (length ss % 2 ^ 32))
        (All-append IsByte (encode_strokes ss) [] (encode_strokes-IsByte ss) tt)),
  simp (length-append, length-le_bytes, length-encode_strokes) (omega arith),
)
