-- ===== src/Cg/Color.antt =====
-- crates/grafted-frameworks/src/cg/color.rs: color spaces and colors. A null pointer is `none`.
use grafted.Base.{ℕ, ◌+◌, ◌-◌, ◌^◌, List, [], ◌∷◌, Option, none, some, ltb, if◌then◌else◌, min}
use grafted.Cf.{CfRuntimeBase, new_base}
use grafted.Cg.Geometry.{Floats}

pub record ColorSpace : Type 0 where
  pub base : CfRuntimeBase
  pub model : ℕ
  pub components : ℕ

pub record Color (V : Type 0) : Type 0 where
  pub base : CfRuntimeBase
  pub components : List V
  pub color_space : Option ColorSpace

unfoldable pub create_device_rgb : ColorSpace
create_device_rgb = record { base = new_base 30; model = 1; components = 3 }

unfoldable pub create_device_gray : ColorSpace
create_device_gray = record { base = new_base 30; model = 0; components = 1 }

unfoldable pub get_number_of_components : Option ColorSpace → ℕ
get_number_of_components none = 0
get_number_of_components (some cs) = cs.components

-- `-1` of an `i32` for null.
unfoldable pub get_model : Option ColorSpace → ℕ
get_model none = 2 ^ 32 - 1
get_model (some cs) = cs.model

-- Component `i` of the array, of which the first `n` are passed.
abbrev pub component_at : {V : Type 0} → Floats V → ℕ → (ℕ → V) → ℕ → V
component_at f n passed i = if ltb i n then passed i else f.zero

abbrev pub components_of : {V : Type 0} → Floats V → Option ColorSpace → (ℕ → V) → List V
components_of f space passed =
    let n = min (elim space [ none ↦ 4 | some cs ↦ cs.components + 1 ]) 4 in
    component_at f n passed 0
    ∷ (component_at f n passed 1 ∷ (component_at f n passed 2 ∷ (component_at f n passed 3 ∷ [])))

unfoldable pub color_create : {V : Type 0} → Floats V → Option ColorSpace → Option (ℕ → V) → Color V
color_create f space components = record {
  base = new_base 31;
  components = elim components [
    | none ↦ f.zero ∷ (f.zero ∷ (f.zero ∷ (f.zero ∷ [])))
    | some passed ↦ components_of f space passed
  ];
  color_space = space;
}

unfoldable pub color_get_components : {V : Type 0} → Option (Color V) → Option (List V)
color_get_components none = none
color_get_components (some color) = some color.components
