-- ===== src/Base/Int.antt =====
-- Signed integers over the native numbers: `negsuc n` is -(n + 1).
use Prim.Native.Nat.{ℕ, suc, ◌-◌}
use mathlib.Core.Bool.{Bool, true, false}
use go_octopi.Base.Test.{ltb, if◌then◌else◌}
use go_octopi.Base.Word.{i64_limit, u64_mod}

pub data ℤ : Type 0 where
  pos : ℕ → ℤ
  negsuc : ℕ → ℤ

abbrev pub is_pos : ℤ → Bool
is_pos (pos ℕ.zero) = false
is_pos (pos (suc n)) = true
is_pos (negsuc n) = false

abbrev pub to_ℕ : ℤ → ℕ
to_ℕ (pos n) = n
to_ℕ (negsuc n) = 0

-- int(n) of a uint64.
unfoldable pub int_of_word : ℕ → ℤ
int_of_word n = if ltb n i64_limit then pos n else negsuc (u64_mod - n - 1)
