-- ===== src/AppKit/Window.antt =====
-- crates/grafted-frameworks/src/appkit/window.rs: windows over the connection to the display, which is
-- a parameter with its state `W`. Conversions of floats to the integers of its calls are its own.
use grafted.Base.{ℕ, ◌*◌, Option, none, some, u32, u64, Bytes, codes}
use grafted.Cg.Geometry.{Floats, Rect}
use grafted.Cg.Context.{CgContext, cg_bitmap_context_create}
use grafted.AppKit.Text.{Text, copy_text}

pub record Display (V W : Type 0) : Type 0 where
  pub to_i32 : V → ℕ
  pub create_window : (x y w h : ℕ) → (title : Bytes) → W → Option ℕ × W
  pub show_window : ℕ → W → W
  pub hide_window : ℕ → W → W
  pub destroy_window : ℕ → W → W
  pub flush_window : ℕ → CgContext V → W → W

pub record Window (V : Type 0) : Type 0 where
  pub window_id : ℕ
  pub frame : Rect V
  pub style_mask : ℕ
  pub title : Text
  pub context : Option (CgContext V)
  pub content_view : ℕ

abbrev pub untitled : Bytes
untitled = codes "Untitled"

module _ {V W : Type 0} (f : Floats V) (display : Display V W) where
  -- The id stays what it was where the window cannot be created.
  unfoldable pub ns_window_init : Window V → Rect V → ℕ → W → Window V × W
  unfolding copy_text cg_bitmap_context_create
  ns_window_init win content_rect style_mask s =
      let w = f.to_usize content_rect.size.width in
      let h = f.to_usize content_rect.size.height in
      let r =
        display.create_window (display.to_i32 content_rect.origin.x)
          (display.to_i32 content_rect.origin.y) (u32 w) (u32 h) untitled s in
      (
        record win {
          frame = content_rect;
          style_mask = style_mask;
          content_view = 0;
          context = some (cg_bitmap_context_create f none w h 8 (u64 (w * 4)));
          title = copy_text 8 (Window.title win) untitled;
          window_id = elim r.0 [ none ↦ Window.window_id win | some id ↦ id ];
        },
        r.1,
      )

  abbrev pub ns_window_make_key_and_order_front : Window V → W → W
  ns_window_make_key_and_order_front win s = display.show_window (Window.window_id win) s

  abbrev pub ns_window_order_out : Window V → W → W
  ns_window_order_out win s = display.hide_window (Window.window_id win) s

  abbrev pub ns_window_close : Window V → W → W
  ns_window_close win s = display.destroy_window (Window.window_id win) s

  abbrev pub ns_window_display : Window V → W → W
  ns_window_display win s = elim (Window.context win) [
    | none ↦ s
    | some c ↦ display.flush_window (Window.window_id win) c s
  ]

module _ {V : Type 0} where
  unfoldable pub ns_window_set_title : Window V → Option Bytes → Window V
  unfolding copy_text
  ns_window_set_title win none = win
  ns_window_set_title win (some bytes) = record win {
    title = copy_text 255 (Window.title win) bytes;
  }

  abbrev pub ns_window_set_content_view : Window V → ℕ → Window V
  ns_window_set_content_view win view = record win { content_view = view }
