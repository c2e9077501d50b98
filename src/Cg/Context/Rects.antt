-- ===== src/Cg/Context/Rects.antt =====
-- Rectangles that are filled and stroked, for crates/grafted-frameworks/src/cg/context.rs.
use grafted.Base.{
  ℕ, zero, suc, Bool, get_or, ◌+◌, ◌-◌, ◌*◌, ◌^◌, ◌≤◌, ◌<◌, ◌≡◌, ◌⊎◌, inl, inr, refl, ap, none,
  some, length, length-replicate, if◌then◌else◌, arith, Bytes, min, u64, replicate, ltb, Bool-cases,
}
use native.Mathlib.Nat.{mul-le-mul_right}
use grafted.Cg.Geometry.{Floats, Rect}
use mathlib.Core.Path.{subst}
use grafted.Cg.Context.{
  CgContext, Rgba, low, pixel_of, with_pixels, cg_bitmap_context_create, cg_context_fill_rect,
  cg_context_stroke_rect,
}
use grafted.Cg.Context.Paint.{component, IsBitmap, IsBeside, byte}
use grafted.Cg.Context.Loops.{in_rect, on_frame, fill_loop-Paints, stroke_loop-Paints}

fresh-IsBitmap :
    (width height stride : ℕ)
    → width * 4 ≤ stride
    → stride * height < 2 ^ 64
    → IsBitmap width height stride (length (replicate {A = ℕ} (u64 (stride * height)) 0))
fresh-IsBitmap width height stride wide fits =
    let l = length-replicate {A = ℕ} (u64 (stride * height)) 0 in
    (wide, omega (arith, l, fits), omega (arith, l, fits))

tail : (row w : ℕ) → row ≤ w + row
tail row w = omega arith

head : (row w : ℕ) → w ≤ w + row
head row w = omega arith

small_word : (n : ℕ) → n < 2 ^ 64 → u64 n ≡ n
small_word n h = omega (arith, h)

module _ {V : Type 0} (f : Floats V) where
  -- A context whose rows hold their pixels and whose buffer is as long as its rows.
  abbrev pub IsCanvas : CgContext V → Type 0
  IsCanvas c = IsBitmap c.width c.height c.stride (length c.pixels)

  -- A float in 0.0 to 1.0 as a byte, and the bytes of a color's pixel: BGRA.
  abbrev pub shade : V → ℕ
  shade v = f.to_u8 (f.mul v f.byte_max)

  abbrev pub bgra : Rgba V → ℕ → ℕ
  bgra c zero = shade c.blue
  bgra c (suc zero) = shade c.green
  bgra c (suc (suc zero)) = shade c.red
  bgra c (suc (suc (suc k))) = shade c.alpha

  component-bgra : (c : Rgba V) (k : ℕ) → component (pixel_of f c) k ≡ bgra c k
  component-bgra c zero = refl
  component-bgra c (suc zero) = refl
  component-bgra c (suc (suc zero)) = refl
  component-bgra c (suc (suc (suc k))) = refl

  -- The first column or row of a rectangle, and the pixels of it that are in the context.
  abbrev pub from : V → ℕ
  from v = f.to_usize (f.max v f.zero)

  abbrev pub covers : CgContext V → Rect V → ℕ → ℕ → Bool
  covers c r x y =
      in_rect (from r.origin.x) (from r.origin.y)
        (min (f.to_usize (f.add r.origin.x r.size.width)) c.width)
        (min (f.to_usize (f.add r.origin.y r.size.height)) c.height) x y

  -- A rectangle is filled: within it, cut to the context, every pixel of a context with whole rows
  -- has the blue, green, red and alpha of the fill color, in this order, every other pixel has the
  -- color that it had, and no byte elsewhere changes: not behind a row's pixels, not of the rest of
  -- the context.
  pub fill_rect_paints :
      (c : CgContext V) (r : Rect V)
      → IsCanvas c
      → (ps : Bytes) × (cg_context_fill_rect f c r ≡ some (record c { pixels = ps }))
        × (length ps ≡ length c.pixels)
        × ((x y k : ℕ)
            → x < c.width
            → y < c.height
            → k < 4
            → byte c.width c.height c.stride ps x y k ≡ (
                if covers c r x y
                then bgra c.state.fill_color k
                else byte c.width c.height c.stride c.pixels x y k))
        × ((j : ℕ)
            → IsBeside c.width c.height c.stride (covers c r) j
            → get_or ps j 0 ≡ get_or c.pixels j 0)
  unfolding cg_context_fill_rect
  fill_rect_paints c r canvas =
      let (ps, e, l, b, rest) =
        fill_loop-Paints c.width c.height c.stride (length c.pixels) (pixel_of f c.state.fill_color)
          (from r.origin.x) (from r.origin.y)
          (min (f.to_usize (f.add r.origin.x r.size.width)) c.width)
          (min (f.to_usize (f.add r.origin.y r.size.height)) c.height) canvas c.pixels refl in
      (
        ps,
        ap (with_pixels c) e,
        l,
        (λ x y k hx hy hk.
            subst
              (λ (v : ℕ).
                byte c.width c.height c.stride ps x y k
                ≡ (if covers c r x y then v else byte c.width c.height c.stride c.pixels x y k))
              (component-bgra c.state.fill_color k) (b x y k hx hy hk)),
        rest,
      )

  -- A rectangle is stroked: the rows at its top and bottom and the columns at its left and right,
  -- cut to the context, have the stroke color, and every other pixel keeps its color. The right and the bottom
  -- are at most the last column and row; where they are left of or above the others, the rows or the
  -- columns are empty.
  pub stroke_rect_paints :
      (c : CgContext V) (r : Rect V)
      → IsCanvas c
      → (ps : Bytes) × (cg_context_stroke_rect f c r ≡ some (record c { pixels = ps }))
        × (length ps ≡ length c.pixels)
        × ((x y k : ℕ)
            → x < c.width
            → y < c.height
            → k < 4
            → byte c.width c.height c.stride ps x y k ≡ (
                if on_frame
                  (low f r.origin.x)
                  (low f r.origin.y)
                  (min (f.to_usize (f.add r.origin.x r.size.width)) (c.width - 1))
                  (min (f.to_usize (f.add r.origin.y r.size.height)) (c.height - 1))
                  x
                  y
                then component (pixel_of f c.state.stroke_color) k
                else byte c.width c.height c.stride c.pixels x y k))
  unfolding cg_context_stroke_rect
  stroke_rect_paints c r canvas =
      let (ps, e, l, b, rest) =
        stroke_loop-Paints c.width c.height c.stride (length c.pixels)
          (pixel_of f c.state.stroke_color) canvas (low f r.origin.x) (low f r.origin.y)
          (min (f.to_usize (f.add r.origin.x r.size.width)) (c.width - 1))
          (min (f.to_usize (f.add r.origin.y r.size.height)) (c.height - 1)) c.pixels refl in
      (ps, ap (with_pixels c) e, l, b)

  -- A context that is made without memory of the caller's, with a buffer of less than 2 ^ 64 bytes and
  -- rows that hold their pixels, is such a context, and its bytes are 0.
  pub create-IsCanvas :
      (width height bits row : ℕ)
      → (row ≡ 0) ⊎ (width * 4 ≤ row)
      → width * 4 < 2 ^ 64
      → (width * 4 + row) * height < 2 ^ 64
      → IsCanvas (cg_bitmap_context_create f none width height bits row)
  unfolding cg_bitmap_context_create
  create-IsCanvas width height bits row rows small fits = elim (Bool-cases (ltb 0 row)) [
    | inl h ↦ rw h (
        fresh-IsBitmap width height row (ground (arith, rows, h))
          (omega (arith, fits, mul-le-mul_right height (tail row (width * 4)))))
    | inr h ↦
        rw (h, small_word (width * 4) small)
          (fresh-IsBitmap width height (width * 4) (omega arith)
            (omega (arith, fits, mul-le-mul_right height (head row (width * 4)))))
  ]
