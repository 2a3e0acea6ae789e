-- ===== src/Go/Float.antt =====
-- What the program does with `float32` (F) and `float64` (D): there are no floats in the model, so
-- the types and their operations are parameters.
use go_tahu_okf_semantic_mcp.Prelude.{Bool, ℤ}

pub record Floats (F D : Type 0) : Type 0 where
  -- `x >= y`, `x > y`, `x != 0`, math.IsNaN, `1 - x`
  pub ge : F → F → Bool
  pub gt : F → F → Bool
  pub is_zero : F → Bool
  pub is_nan : F → Bool
  pub one_minus : F → F
  -- `float32(d)` and the constant 0.0
  pub to_float32 : D → F
  pub zero64 : D

-- Go's arithmetic on `float64`: the conversion of an int, the operations, math.Log, `x > y`, and the
-- constants that BM25 uses; and the zero of `float32`.
pub record Arithmetic (F D : Type 0) : Type 0 where
  pub of_int : ℤ → D
  pub add : D → D → D
  pub sub : D → D → D
  pub mul : D → D → D
  pub div : D → D → D
  pub log : D → D
  pub greater : D → D → Bool
  pub zero : D
  pub half : D
  pub one : D
  pub three_halves : D
  pub three_quarters : D
  pub zero32 : F
