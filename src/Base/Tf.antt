-- ===== src/Base/Tf.antt =====
-- tf as the nodes use it.
use Prim.Native.String.{String}
use mathlib.Core.Option.{Option, none, some}
use mathlib.Core.Bool.{Bool, true, false}
use Prim.Native.Nat.{ℕ}

-- A buffer: the pose of the second frame in the first and its time, or a `TransformException` after so
-- many nanoseconds.
pub record TfBuffer (Pose : Type 0) : Type 1 where
  pub Stamp : Type 0
  pub lookup_transform : String → String → ℕ → Option (Pose × Stamp)

-- A pose that is found replaces the given one; an exception leaves it.
abbrev pub looked_up : {Pose Stamp : Type 0} → Option (Pose × Stamp) → Pose → Pose × Bool
looked_up none des = (des, false)
looked_up (some found) des = (found.0, true)
