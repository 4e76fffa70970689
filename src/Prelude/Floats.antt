-- ===== src/Prelude/Floats.antt =====
-- The float64 operations that the source calls, which have no definition here: a component that uses
-- them takes them as a parameter.
use yggdrasil_ecosystem.Prelude.{ℕ, Bool}

pub record Floats : Type 1 where
  pub Float : Type 0
  pub from_ℕ : ℕ → Float
  pub plus : Float → Float → Float
  pub minus : Float → Float → Float
  pub times : Float → Float → Float
  pub over : Float → Float → Float
  pub sqrt : Float → Float
  -- x < y, x >= y
  pub lt : Float → Float → Bool
  pub ge : Float → Float → Bool
