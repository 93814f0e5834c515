-- ===== src/Persistence/Codec/Tests.antt =====
-- Snapshots as bytes, and the theorems about them at concrete inputs.
use clear_space.Prelude.{ℕ, ◌+◌, ◌≡◌, refl, true, String, List, [], ◌∷◌, ◌++◌, arith, length, All}
use clear_space.Core.Types.{Stroke, red, thick}
use clear_space.Persistence.Codec.{
  returned, thrown, le_bytes, le_value, append_le, read_le, append_points, append_stroke,
  append_strokes, serialize_strokes, read_points, read_stroke, read_strokes, read_body, at_end,
  deserialize_strokes,
}
use clear_space.Persistence.Codec.Bytes.{IsByte}
use clear_space.Persistence.Codec.Write.{size_strokes, serialize_shape}
use clear_space.Persistence.Codec.RoundTrip.{IsStroke, deserialize-serialize}
use clear_space.Persistence.Codec.Damage.{
  deserialize_trailing, deserialize_truncated, deserialize-IsStroke,
}

abbrev sample : Stroke
sample = record {
  id = 258;
  author = 7;
  color = red;
  thickness = thick;
  stroke_order = 3;
  points = record { x = 0x3f80_0000; y = 1 } ∷ [];
  finished = true;
}

abbrev sample_bytes : List ℕ
sample_bytes =
    1 ∷ 0 ∷ 0 ∷ 0 ∷ 1 ∷ 0 ∷ 0 ∷ 0 ∷ 2 ∷ 1 ∷ 0 ∷ 0 ∷ 0 ∷ 0 ∷ 0 ∷ 0 ∷ 7 ∷ 0 ∷ 0 ∷ 0 ∷ 0 ∷ 0 ∷ 0 ∷ 0
    ∷ 1 ∷ 2 ∷ 3 ∷ 0 ∷ 0 ∷ 0 ∷ 0 ∷ 0 ∷ 0 ∷ 0 ∷ 1 ∷ 1 ∷ 0 ∷ 0 ∷ 0 ∷ 0 ∷ 0 ∷ 128 ∷ 63 ∷ 1 ∷ 0 ∷ 0 ∷ 0
    ∷ []

sample_written : serialize_strokes (sample ∷ []) ≡ sample_bytes
unfolding serialize_strokes append_strokes append_stroke append_points append_le le_bytes
sample_written = refl

sample_read : deserialize_strokes sample_bytes ≡ returned (sample ∷ [])
unfolding deserialize_strokes read_body read_strokes read_stroke read_points read_le le_value at_end
sample_read = refl

-- The reader does not look at the range of an enumeration: color 9 is accepted.
foreign_color :
    deserialize_strokes (
      1 ∷ 0 ∷ 0 ∷ 0 ∷ 1 ∷ 0 ∷ 0 ∷ 0 ∷ 2 ∷ 1 ∷ 0 ∷ 0 ∷ 0 ∷ 0 ∷ 0 ∷ 0 ∷ 7 ∷ 0 ∷ 0 ∷ 0 ∷ 0 ∷ 0 ∷ 0 ∷ 0
      ∷ 9 ∷ 2 ∷ 3 ∷ 0 ∷ 0 ∷ 0 ∷ 0 ∷ 0 ∷ 0 ∷ 0 ∷ 1 ∷ 0 ∷ 0 ∷ 0 ∷ 0 ∷ [])
    ≡ returned (record sample { color = 9; points = [] } ∷ [])
unfolding deserialize_strokes read_body read_strokes read_stroke read_points read_le le_value at_end
foreign_color = refl

wrong_version : deserialize_strokes (2 ∷ 0 ∷ 0 ∷ 0 ∷ []) ≡ thrown "unsupported snapshot version"
unfolding deserialize_strokes read_le le_value
wrong_version = refl

empty_written : serialize_strokes [] ≡ 1 ∷ 0 ∷ 0 ∷ 0 ∷ 0 ∷ 0 ∷ 0 ∷ 0 ∷ []
unfolding serialize_strokes append_strokes append_le le_bytes
empty_written = refl

sample-IsStroke : IsStroke sample
sample-IsStroke = omega arith

deserialize-serialize_example :
    deserialize_strokes (serialize_strokes (sample ∷ [])) ≡ returned (sample ∷ [])
deserialize-serialize_example =
    deserialize-serialize (sample ∷ []) (sample-IsStroke, tt) (omega arith)

serialize_shape_example :
    All IsByte (serialize_strokes (sample ∷ []))
    × (length (serialize_strokes (sample ∷ [])) ≡ 8 + size_strokes (sample ∷ []))
serialize_shape_example = serialize_shape (sample ∷ [])

deserialize_trailing_example :
    deserialize_strokes (sample_bytes ++ (0 ∷ []))
    ≡ thrown "corrupted snapshot blob (trailing bytes)"
deserialize_trailing_example = deserialize_trailing sample_bytes (sample ∷ []) 0 [] sample_read

deserialize_truncated_example :
    (msg : String) × (deserialize_strokes (1 ∷ 0 ∷ 0 ∷ 0 ∷ 0 ∷ 0 ∷ 0 ∷ []) ≡ thrown msg)
deserialize_truncated_example =
    deserialize_truncated [] (1 ∷ 0 ∷ 0 ∷ 0 ∷ 0 ∷ 0 ∷ 0 ∷ []) 0 [] tt (omega arith) empty_written

deserialize-IsStroke_example :
    All IsStroke (sample ∷ [])
    × (deserialize_strokes (serialize_strokes (sample ∷ [])) ≡ returned (sample ∷ []))
deserialize-IsStroke_example =
    deserialize-IsStroke sample_bytes (sample ∷ []) (omega arith) sample_read
