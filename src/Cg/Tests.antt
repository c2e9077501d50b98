-- ===== src/Cg/Tests.antt =====
-- The theorems on crates/grafted-frameworks/src/cg at concrete inputs. Numbers stand for floats.
use grafted.Base.{
  ℕ, ◌+◌, ◌-◌, ◌*◌, ◌/◌, ◌<◌, ◌≡◌, inl, inr, refl, min, max, List, [], ◌∷◌, ◌++◌, none, some, arith,
  if◌then◌else◌, ◌==◌, nat_eq, length, get_or, Bytes, ltb, leb,
}
use grafted.Cf.{new_base}
use grafted.Cg.Geometry.{Floats, Rect, rect_intersection}
use grafted.Cg.Color.{create_device_gray, color_create}
use grafted.Cg.Context.{
  CgContext, pixel_of, for_each, pixel_offset, set_pixel, fill_loop, stroke_loop,
  cg_bitmap_context_create, cg_context_fill_rect, cg_context_clear_rect, cg_context_stroke_rect,
}
use grafted.Cg.Context.Paint.{component, IsBeside, byte}
use grafted.Cg.Context.Loops.{in_rect, on_frame}
use grafted.Cg.Context.Rects.{IsCanvas, bgra, fill_rect_paints, stroke_rect_paints, create-IsCanvas}
use grafted.Cg.Context.States.{
  StateCall, save, restore, line_width, translate, nothing, setter, nested, perform, perform_all,
  restore-save, cg_context_save_g_state, cg_context_restore_g_state, cg_context_set_line_width,
  cg_context_translate_ctm,
}

program : Unit {0}
unfolding new_base rect_intersection create_device_gray color_create for_each pixel_offset set_pixel
    fill_loop stroke_loop cg_bitmap_context_create cg_context_fill_rect cg_context_clear_rect
    cg_context_stroke_rect perform perform_all cg_context_save_g_state cg_context_restore_g_state
    cg_context_set_line_width cg_context_translate_ctm
program = tt

abbrev pub numbers : Floats ℕ
numbers = record {
  zero = 0;
  one = 1;
  add = λ a b. a + b;
  sub = λ a b. a - b;
  half = λ a. a / 2;
  min = λ a b. min a b;
  mul = λ a b. a * b;
  max = λ a b. max a b;
  lt = λ a b. ltb a b;
  le = λ a b. leb a b;
  eq = λ a b. a == b;
  byte_max = 255;
  to_usize = λ a. a;
  to_u8 = λ a. min a 255;
}

abbrev canvas : CgContext ℕ
canvas = cg_bitmap_context_create numbers none 3 2 8 0

abbrev pub rect : ℕ → ℕ → ℕ → ℕ → Rect ℕ
rect x y w h = record { origin = record { x = x; y = y }; size = record { width = w; height = h } }

canvas-IsCanvas : IsCanvas numbers canvas
canvas-IsCanvas = create-IsCanvas numbers 3 2 8 0 (inl refl) (omega arith) (omega arith)

test_create-IsCanvas : IsCanvas numbers (cg_bitmap_context_create numbers none 3 2 8 16)
test_create-IsCanvas =
    create-IsCanvas numbers 3 2 8 16 (inr (omega arith)) (omega arith) (omega arith)

fill_rect_paints_example :
    (ps : Bytes) × (cg_context_fill_rect numbers canvas (rect 1 0 5 1)
      ≡ some (record canvas { pixels = ps }))
    × (length ps ≡ 24)
    × ((x y k : ℕ)
        → x < 3
        → y < 2
        → k < 4
        → byte 3 2 12 ps x y k ≡ (
            if in_rect 1 0 3 1 x y
            then bgra numbers canvas.state.fill_color k
            else byte 3 2 12 canvas.pixels x y k))
    × ((j : ℕ) → IsBeside 3 2 12 (in_rect 1 0 3 1) j → get_or ps j 0 ≡ get_or canvas.pixels j 0)
unfolding program
fill_rect_paints_example = fill_rect_paints numbers canvas (rect 1 0 5 1) canvas-IsCanvas

test_stroke_rect_paints :
    (ps : Bytes) × (cg_context_stroke_rect numbers canvas (rect 0 0 9 9)
      ≡ some (record canvas { pixels = ps }))
    × (length ps ≡ 24)
    × ((x y k : ℕ)
        → x < 3
        → y < 2
        → k < 4
        → byte 3 2 12 ps x y k ≡ (
            if on_frame 0 0 2 1 x y
            then component (pixel_of numbers canvas.state.stroke_color) k
            else byte 3 2 12 canvas.pixels x y k))
unfolding program
test_stroke_rect_paints = stroke_rect_paints numbers canvas (rect 0 0 9 9) canvas-IsCanvas

abbrev calls : List (StateCall ℕ)
calls = save ∷ (line_width 4 ∷ (restore ∷ (translate 2 3 ∷ [])))

restore-save_example : perform_all numbers (save ∷ (calls ++ restore ∷ [])) canvas ≡ canvas
unfolding program
restore-save_example =
    restore-save numbers canvas
      (nested (setter (line_width 4) refl nothing) (setter (translate 2 3) refl nothing))

test_intersection : rect_intersection numbers (rect 0 0 4 4) (rect 2 1 9 2) ≡ rect 2 1 2 2
unfolding program
test_intersection = refl

-- A gray of brightness 7 that is opaque (9) is stored as red 7, green 9 and alpha 0.
test_gray :
    (color_create numbers
      (some create_device_gray)
      (some (λ i. if i == 0 then 7 else 9))).components
    ≡ 7 ∷ (9 ∷ (0 ∷ (0 ∷ [])))
unfolding program
test_gray = refl
