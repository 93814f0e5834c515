-- ===== src/Prelude/Words.antt =====
-- std::uint64_t counters, which wrap.
use Prim.Native.Nat.{ℕ, ◌+◌, ◌%◌, ◌^◌, ◌<◌}
use mathlib.Core.Path.{◌≡◌}
use mathlib.Core.Logic.{◌≢◌}
use native.Mathlib.Omega.{arith}

abbrev pub u64_mod : ℕ
u64_mod = 2 ^ 64

-- The value of `n` after `n++`.
unfoldable pub incr64 : ℕ → ℕ
incr64 n = (n + 1) % u64_mod

pub incr64-eq : (n : ℕ) → n + 1 < u64_mod → incr64 n ≡ n + 1
unfolding incr64
incr64-eq n h = omega arith

pub incr64-ne : (n : ℕ) → incr64 n ≢ n
unfolding incr64
incr64-ne n e = omega arith
