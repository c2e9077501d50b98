-- ===== src/Cg/Context.antt =====
-- crates/grafted-frameworks/src/cg/context.rs: a drawing context with a buffer of pixels. A call with
-- a null context does nothing or gives 0, so that the functions here take a context that is there.
-- A result `none` is a panic by an index out of bounds. Sizes wrap in 64 bits.

pub mod Paint
pub mod Rects
pub mod States
pub mod Loops
use grafted.Base.{
  ℕ, zero, suc, ◌+◌, ◌-◌, ◌*◌, ◌%◌, ◌^◌, min, Bool, true, false, ◌&&◌, ◌||◌, List, [], ◌∷◌, Option,
  none, some, ◌==◌, nat_eq, ltb, leb, if◌then◌else◌, length, get_or, set, replicate, u64, Bytes,
}
use grafted.Cf.{CfRuntimeBase, new_base, retain_base}
use grafted.Cf.Buffers.{bytes_from}
use grafted.Cg.Geometry.{Floats, Rect, AffineTransform}

pub record Rgba (V : Type 0) : Type 0 where
  pub red : V
  pub green : V
  pub blue : V
  pub alpha : V

pub record DrawState (V : Type 0) : Type 0 where
  pub fill_color : Rgba V
  pub stroke_color : Rgba V
  pub line_width : V
  pub transform : AffineTransform V

-- The drawing state that the source spreads over four fields is one record here.
pub record CgContext (V : Type 0) : Type 0 where
  pub base : CfRuntimeBase
  pub width : ℕ
  pub height : ℕ
  pub stride : ℕ
  pub bits_per_component : ℕ
  pub pixels : Bytes
  pub state : DrawState V
  pub state_stack : List (DrawState V)

-- A pixel's bytes in the order in which they are stored.
pub record Pixel : Type 0 where
  pub b : ℕ
  pub g : ℕ
  pub r : ℕ
  pub a : ℕ

-- `pixels[i] = v`.
abbrev pub store : ℕ → ℕ → Bytes → Option Bytes
store i v ps = if ltb i (length ps) then some (set ps i v) else none

abbrev pub and_then : Option Bytes → (Bytes → Option Bytes) → Option Bytes
and_then none f = none
and_then (some ps) f = f ps

-- The range `from..to`, and a loop over one.
abbrev pub range_of : ℕ → ℕ → List ℕ
range_of from zero = []
range_of from (suc n) = from ∷ range_of (suc from) n

unfoldable pub for_each : List ℕ → (ℕ → Bytes → Option Bytes) → Bytes → Option Bytes
for_each [] body ps = some ps
for_each (x ∷ xs) body ps = and_then (body x ps) (for_each xs body)

abbrev pub range : ℕ → ℕ → List ℕ
range from to = range_of from (to - from)

abbrev pub range_inclusive : ℕ → ℕ → List ℕ
range_inclusive from to = range_of from (to + 1 - from)

-- What set_pixel writes, for the size and stride of a context.
module _ (width height stride : ℕ) where
  unfoldable pub pixel_offset : ℕ → ℕ → ℕ
  pixel_offset x y = u64 (u64 (y * stride) + u64 (x * 4))

  unfoldable pub set_pixel : ℕ → ℕ → Pixel → Bytes → Option Bytes
  unfolding pixel_offset
  set_pixel x y p ps =
      let off = pixel_offset x y in
      if leb width x || leb height y
      then some ps
      else if ltb (u64 (off + 3)) (length ps)
      then and_then (store off p.b ps) (λ ps.
        and_then (store (off + 1) p.g ps)
          (λ ps. and_then (store (off + 2) p.r ps) (store (off + 3) p.a)))
      else some ps

  -- `for y in y0..y1 { for x in x0..x1 { … } }`.
  unfoldable pub fill_loop : ℕ → ℕ → ℕ → ℕ → Pixel → Bytes → Option Bytes
  unfolding set_pixel for_each
  fill_loop x0 y0 x1 y1 p =
      for_each (range y0 y1) (λ y. for_each (range x0 x1) (λ x. set_pixel x y p))

  unfoldable pub stroke_loop : ℕ → ℕ → ℕ → ℕ → Pixel → Bytes → Option Bytes
  unfolding set_pixel for_each
  stroke_loop x0 y0 x1 y1 p ps =
      and_then
        (for_each (range_inclusive x0 x1)
          (λ x ps. and_then (set_pixel x y0 p ps) (set_pixel x y1 p)) ps)
        (for_each (range_inclusive y0 y1)
          (λ y ps. and_then (set_pixel x0 y p ps) (set_pixel x1 y p)))

abbrev pub with_pixels : {V : Type 0} → CgContext V → Option Bytes → Option (CgContext V)
with_pixels c none = none
with_pixels c (some ps) = some (record c { pixels = ps })

module _ {V : Type 0} (f : Floats V) where
  open f use {to_usize, to_u8, add, mul, byte_max}

  abbrev pub identity : AffineTransform V
  identity = record { a = f.one; b = f.zero; c = f.zero; d = f.one; tx = f.zero; ty = f.zero }

  abbrev pub black : Rgba V
  black = record { red = f.zero; green = f.zero; blue = f.zero; alpha = f.one }

  -- The bytes at `bytes` where the caller passes memory, which the context takes over.
  unfoldable pub cg_bitmap_context_create : Option (ℕ → ℕ) → ℕ → ℕ → ℕ → ℕ → CgContext V
  unfolding bytes_from
  cg_bitmap_context_create bytes width height bits_per_component bytes_per_row =
      let stride = if ltb 0 bytes_per_row then bytes_per_row else u64 (width * 4) in
      let size = u64 (stride * height) in
      record {
        base = new_base 32;
        width = width;
        height = height;
        stride = stride;
        bits_per_component = bits_per_component;
        pixels = elim bytes [ none ↦ replicate size 0 | some memory ↦ bytes_from memory 0 size ];
        state = record {
          fill_color = black;
          stroke_color = black;
          line_width = f.one;
          transform = identity;
        };
        state_stack = [];
      }

  abbrev pub channel : V → ℕ
  channel v = to_u8 (mul v byte_max)

  abbrev pub pixel_of : Rgba V → Pixel
  pixel_of c = record {
    b = channel c.blue;
    g = channel c.green;
    r = channel c.red;
    a = channel c.alpha;
  }

  abbrev pub low : V → ℕ
  low v = to_usize (f.max v f.zero)

  unfoldable pub cg_context_fill_rect : CgContext V → Rect V → Option (CgContext V)
  unfolding fill_loop
  cg_context_fill_rect c r =
      let x1 = min (to_usize (add r.origin.x r.size.width)) c.width in
      let y1 = min (to_usize (add r.origin.y r.size.height)) c.height in
      with_pixels c (
        fill_loop c.width c.height c.stride (low r.origin.x) (low r.origin.y) x1 y1
          (pixel_of c.state.fill_color) c.pixels)

  unfoldable pub cg_context_clear_rect : CgContext V → Rect V → Option (CgContext V)
  unfolding fill_loop
  cg_context_clear_rect c r =
      let x1 = min (to_usize (add r.origin.x r.size.width)) c.width in
      let y1 = min (to_usize (add r.origin.y r.size.height)) c.height in
      with_pixels c (
        fill_loop c.width c.height c.stride (low r.origin.x) (low r.origin.y) x1 y1
          (record { b = 0; g = 0; r = 0; a = 0 }) c.pixels)

  unfoldable pub cg_context_stroke_rect : CgContext V → Rect V → Option (CgContext V)
  unfolding stroke_loop
  cg_context_stroke_rect c r =
      let x1 = min (to_usize (add r.origin.x r.size.width)) (c.width - 1) in
      let y1 = min (to_usize (add r.origin.y r.size.height)) (c.height - 1) in
      with_pixels c (
        stroke_loop c.width c.height c.stride (low r.origin.x) (low r.origin.y) x1 y1
          (pixel_of c.state.stroke_color) c.pixels)
