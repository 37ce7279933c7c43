-- ===== src/Sizes.antt =====
-- src/Exmap.cpp and src/Exmap.hpp: Sizes, the measures of a file, process or range of memory, and
-- the static scale in which they are shown.
use exmap.Prelude.{ℕ, ◌*◌, [], ◌∷◌, ◌==◌, if◌then◌else◌}
use exmap.Std.Names.{Name}
use exmap.Double.{Double}

pub data Measure : Type 0 where
  effective_resident effective_mapped writable vm sole_mapped mapped resident : Measure

-- The values of the enum, which index `_values` and `names`.
abbrev pub index : Measure → ℕ
index effective_resident = 0
index effective_mapped = 1
index writable = 2
index vm = 3
index sole_mapped = 4
index mapped = 5
index resident = 6

-- `_scale_factor` and `_scale_name`, which the class shares.
pub record Scale : Type 0 where
  pub factor : ℕ
  pub name : Name

unfoldable pub initial_scale : Scale
initial_scale = record { factor = 1; name = [] }

unfoldable pub scale_units : Scale → Scale
scale_units s = record { factor = 1; name = [] }

unfoldable pub scale_kbytes : Scale → Scale
scale_kbytes s = record { factor = 1024; name = b'K' ∷ [] }

unfoldable pub scale_mbytes : Scale → Scale
scale_mbytes s = record { factor = 1024 * 1024; name = b'M' ∷ [] }

module _ (d : Double) where
  -- `_values`, by measure.
  abbrev pub Sizes : Type 0
  Sizes = Measure → d.Val

  -- The constructor.
  unfoldable pub zero_sizes : Sizes
  zero_sizes m = d.of_word 0

  unfoldable pub val : Sizes → Measure → d.Val
  val s which = s which

  unfoldable pub sval : Scale → Sizes → Measure → d.Val
  sval scale s which = d.div (s which) (d.of_int scale.factor)

  unfoldable pub increase : Sizes → Measure → d.Val → Sizes
  increase s which amount = λ m. if index m == index which then d.add (s m) amount else s m

  unfoldable pub add_sizes : Sizes → Sizes → Sizes
  add_sizes s other = λ m. d.add (s m) (other m)
