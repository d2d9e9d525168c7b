-- ===== src/Base/Memory.antt =====
-- A flat memory: the byte at each address.
use Prim.Native.Nat.{ℕ, ◌<◌}
use mathlib.Core.Path.{◌≡◌}
use mathlib.Core.Logic.{◌≢◌}
use native.Mathlib.Omega.{arith}
use project_base_learning.Base.Tests.{◌==◌, if◌then◌else◌}

abbrev pub Mem : Type 0
Mem = ℕ → ℕ

-- `*a = v` for a byte.
abbrev pub write : Mem → ℕ → ℕ → Mem
write m a v x = if x == a then v else m x

pub write_self : (m : Mem) (a v : ℕ) → write m a v a ≡ v
write_self m a v = ground arith

pub write_ne : (m : Mem) (a v x : ℕ) → x ≢ a → write m a v x ≡ m x
write_ne m a v x h = ground arith

-- Every cell holds a byte.
abbrev pub IsBytes : Mem → Type 0
IsBytes m = (a : ℕ) → m a < 256
