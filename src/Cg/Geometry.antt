-- ===== src/Cg/Geometry.antt =====
-- crates/grafted-frameworks/src/cg/geometry.rs: points, sizes, rectangles and transforms over the
-- floating-point numbers, which are a parameter.
use grafted.Base.{ℕ, Bool, ◌&&◌, ◌||◌, if◌then◌else◌}

-- `f64` as the drawing functions use it: `as usize` and `as u8` saturate.
pub record Floats (V : Type 0) : Type 0 where
  pub zero : V
  pub one : V
  pub add : V → V → V
  pub sub : V → V → V
  pub half : V → V
  pub min : V → V → V
  pub mul : V → V → V
  pub max : V → V → V
  pub lt : V → V → Bool
  pub le : V → V → Bool
  pub eq : V → V → Bool
  pub byte_max : V
  pub to_usize : V → ℕ
  pub to_u8 : V → ℕ

pub record Point (V : Type 0) : Type 0 where
  pub x : V
  pub y : V

pub record Size (V : Type 0) : Type 0 where
  pub width : V
  pub height : V

pub record Rect (V : Type 0) : Type 0 where
  pub origin : Point V
  pub size : Size V

pub record AffineTransform (V : Type 0) : Type 0 where
  pub a : V
  pub b : V
  pub c : V
  pub d : V
  pub tx : V
  pub ty : V

module _ {V : Type 0} (f : Floats V) where
  abbrev pub max_x : Rect V → V
  max_x r = f.add r.origin.x r.size.width

  abbrev pub max_y : Rect V → V
  max_y r = f.add r.origin.y r.size.height

  abbrev pub mid_x : Rect V → V
  mid_x r = f.add r.origin.x (f.half r.size.width)

  abbrev pub mid_y : Rect V → V
  mid_y r = f.add r.origin.y (f.half r.size.height)

  abbrev pub is_empty : Rect V → Bool
  is_empty r = f.le r.size.width f.zero || f.le r.size.height f.zero

  abbrev pub zero_rect : Rect V
  zero_rect = record {
    origin = record { x = f.zero; y = f.zero };
    size = record { width = f.zero; height = f.zero };
  }

  -- `a > b` is `b < a`.
  unfoldable pub rect_intersection : Rect V → Rect V → Rect V
  rect_intersection r1 r2 =
      let x = f.max r1.origin.x r2.origin.x in
      let y = f.max r1.origin.y r2.origin.y in
      let x2 = f.min (max_x r1) (max_x r2) in
      let y2 = f.min (max_y r1) (max_y r2) in
      if f.lt x x2 && f.lt y y2
      then record {
        origin = record { x = x; y = y };
        size = record { width = f.sub x2 x; height = f.sub y2 y };
      }
      else zero_rect

  unfoldable pub rect_union : Rect V → Rect V → Rect V
  rect_union r1 r2 =
      let x = f.min r1.origin.x r2.origin.x in
      let y = f.min r1.origin.y r2.origin.y in
      record {
        origin = record { x = x; y = y };
        size = record {
          width = f.sub (f.max (max_x r1) (max_x r2)) x;
          height = f.sub (f.max (max_y r1) (max_y r2)) y;
        };
      }

  unfoldable pub rect_contains_point : Rect V → Point V → Bool
  rect_contains_point r p =
      f.le r.origin.x p.x && (f.lt p.x (max_x r) && (f.le r.origin.y p.y && f.lt p.y (max_y r)))

  unfoldable pub point_equal : Point V → Point V → Bool
  point_equal p1 p2 = f.eq p1.x p2.x && f.eq p1.y p2.y

  unfoldable pub size_equal : Size V → Size V → Bool
  size_equal s1 s2 = f.eq s1.width s2.width && f.eq s1.height s2.height

  unfoldable pub rect_equal : Rect V → Rect V → Bool
  unfolding point_equal size_equal
  rect_equal r1 r2 = point_equal r1.origin r2.origin && size_equal r1.size r2.size
