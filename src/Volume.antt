-- ===== src/Volume.antt =====
-- driver/volume_control.cpp over numbers of any type `F`, whose arithmetic and power function are
-- those of `float`.
use roc_vad.Prelude.{Bool, if◌then◌else◌}

-- `float`, with `std::pow(10, x)`.
pub record Float (F : Type 0) : Type 0 where
  pub zero_point : F
  pub one_point : F
  pub twenty : F
  pub le : F → F → Bool
  pub sub : F → F → F
  pub mul : F → F → F
  pub div : F → F → F
  pub pow10 : F → F

module _ {F : Type 0} (float : Float F) where
  open float use {zero_point, one_point, twenty, le, sub, mul, div, pow10}

  -- `std::clamp`
  abbrev pub clamp : F → F → F → F
  clamp scalar low high = if le low scalar then (if le scalar high then scalar else high) else low

  unfoldable pub volume_scalar_to_decibels : F → F → F
  volume_scalar_to_decibels scalar db_range =
      mul db_range (sub (clamp scalar zero_point one_point) one_point)

  unfoldable pub volume_scalar_to_gain : F → F → F
  volume_scalar_to_gain scalar db_range =
      if le scalar zero_point
      then zero_point
      else (if le one_point scalar
          then one_point
          else pow10 (div (volume_scalar_to_decibels scalar db_range) twenty))
