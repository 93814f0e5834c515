-- ===== src/Persistence/Codec.antt =====
-- persistence/src/sqlite_snapshot_store.cpp: `appendLE`, `readLE`, `serializeStrokes` and
-- `deserializeStrokes`, on a machine that stores numbers lowest byte first. A byte is a number below
-- 256; the pointer of the reader is the list of the bytes that it has not passed.
pub mod Bytes
pub mod Readers
pub mod Write
pub mod RoundTrip
pub mod Damage
mod Tests
use clear_space.Prelude.{
  ℕ, zero, suc, ◌+◌, ◌*◌, ◌/◌, ◌%◌, ◌^◌, ◌<◌, String, Bool, true, false, not, List, [], ◌∷◌, ◌++◌,
  ltb, ◌==◌, if◌then◌else◌, length, take, drop,
}
use clear_space.Core.Types.{Point, Stroke}

-- What a function does that may throw a std::runtime_error.
pub data Outcome {ℓ} (A : Type ℓ) : Type ℓ where
  returned : A → Outcome A
  thrown : String → Outcome A

infixl 5 ◌>>=◌
abbrev pub ◌>>=◌ {ℓ κ} : {A : Type ℓ} {B : Type κ} → Outcome A → (A → Outcome B) → Outcome B
returned a >>= f = f a
thrown msg >>= f = thrown msg

-- The bytes of a number of `w` bytes.
pub le_bytes : ℕ → ℕ → List ℕ
le_bytes zero v = []
le_bytes (suc w) v = (v % 256) ∷ le_bytes w (v / 256)

pub le_value : List ℕ → ℕ
le_value [] = 0
le_value (b ∷ bs) = b + 256 * le_value bs

-- `appendLE` of a value of `w` bytes
pub append_le : List ℕ → ℕ → ℕ → List ℕ
append_le buf w v = buf ++ le_bytes w v

-- `readLE` of a value of `w` bytes
pub read_le : ℕ → List ℕ → Outcome (ℕ × List ℕ)
read_le w p =
    if ltb (length p) w
    then thrown "corrupted snapshot blob"
    else returned (le_value (take w p), drop w p)

append_points : List ℕ → List Point → List ℕ
append_points buf [] = buf
append_points buf (p ∷ ps) = append_points (append_le (append_le buf 4 p.x) 4 p.y) ps

append_stroke : List ℕ → Stroke → List ℕ
unfolding append_points
append_stroke buf s =
    let b1 = append_le buf 8 s.id in
    let b2 = append_le b1 8 s.author in
    let b3 = append_le b2 1 s.color in
    let b4 = append_le b3 1 s.thickness in
    let b5 = append_le b4 8 s.stroke_order in
    let b6 = append_le b5 1 (if s.finished then 1 else 0) in
    let b7 = append_le b6 4 (length s.points % 2 ^ 32) in append_points b7 s.points

append_strokes : List ℕ → List Stroke → List ℕ
append_strokes buf [] = buf
append_strokes buf (s ∷ ss) = append_strokes (append_stroke buf s) ss

pub serialize_strokes : List Stroke → List ℕ
unfolding append_strokes
serialize_strokes strokes =
    append_strokes (append_le (append_le [] 4 1) 4 (length strokes % 2 ^ 32)) strokes

-- The loop over `pointsCount`, with the rounds left.
read_points : ℕ → List ℕ → List Point → Outcome (List Point × List ℕ)
read_points zero p points = returned (points, p)
read_points (suc n) p points = do
  (x, p1) ← read_le 4 p
  (y, p2) ← read_le 4 p1
  read_points n p2 (points ++ (record { x = x; y = y } ∷ []))

read_stroke : List ℕ → Outcome (Stroke × List ℕ)
read_stroke p = do
  (id, p1) ← read_le 8 p
  (author, p2) ← read_le 8 p1
  (color, p3) ← read_le 1 p2
  (thickness, p4) ← read_le 1 p3
  (order, p5) ← read_le 8 p4
  (flag, p6) ← read_le 1 p5
  (count, p7) ← read_le 4 p6
  (points, p8) ← read_points count p7 []
  returned (
    record {
      id = id;
      author = author;
      color = color;
      thickness = thickness;
      stroke_order = order;
      points = points;
      finished = not (flag == 0);
    },
    p8,
  )

-- The loop over `strokesCount`, with the rounds left.
read_strokes : ℕ → List ℕ → List Stroke → Outcome (List Stroke × List ℕ)
read_strokes zero p strokes = returned (strokes, p)
read_strokes (suc n) p strokes = do (s, p1) ← read_stroke p; read_strokes n p1 (strokes ++ (s ∷ []))

at_end : List Stroke × List ℕ → Outcome (List Stroke)
at_end (strokes, []) = returned strokes
at_end (strokes, b ∷ p) = thrown "corrupted snapshot blob (trailing bytes)"

read_body : List ℕ → Outcome (List Stroke)
unfolding at_end
read_body p = do (count, p1) ← read_le 4 p; rest ← read_strokes count p1 []; at_end rest

pub deserialize_strokes : List ℕ → Outcome (List Stroke)
unfolding read_body
deserialize_strokes p = do
  (version, p1) ← read_le 4 p
  if version == 1 then read_body p1 else thrown "unsupported snapshot version"
