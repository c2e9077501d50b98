-- ===== src/AppKit/Tests.antt =====
-- The theorems on crates/grafted-frameworks/src/appkit at concrete inputs, and runs of its functions.
use grafted.Base.{
  ℕ, suc, ◌+◌, ◌≤◌, ◌≡◌, ◌≢◌, inl, refl, false, List, [], ◌∷◌, ◌++◌, none, some, arith, take,
  nat_eq, length, codes, replicate,
}
use grafted.Cf.{new_base}
use grafted.Cg.Context.{cg_bitmap_context_create}
use grafted.Cg.Tests.{numbers, rect}
use grafted.AppKit.Text.{Text, copy_text, copy_text_reads}
use grafted.AppKit.View.{
  View, Views, put_view, ns_view_init_with_frame, ns_view_add_subview, ns_view_set_frame,
}
use grafted.AppKit.View.Hierarchy.{IsHierarchy}
use grafted.AppKit.View.Calls.{
  init_with_frame, add_subview, perform, IsRun, done, call, IsRun-IsHierarchy,
}
use grafted.AppKit.Menu.{Menu, ns_menu_add_item}
use grafted.AppKit.Menu.Items.{items_of, add_items, add_items_keeps_first}
use grafted.AppKit.Window.{
  Window, Display, ns_window_init, ns_window_set_title, ns_window_make_key_and_order_front,
}

program : Unit {0}
unfolding new_base cg_bitmap_context_create copy_text put_view ns_view_init_with_frame
    ns_view_add_subview ns_view_set_frame perform ns_menu_add_item add_items ns_window_init
    ns_window_set_title
program = tt

abbrev old_title : Text
old_title = record { array = replicate 256 7; len = 3 }

test_copy_text_reads :
    (take
        (Text.len (copy_text 255 old_title (codes "File")))
        (Text.array (copy_text 255 old_title (codes "File")))
      ≡ codes "File")
    × (length (Text.array (copy_text 255 old_title (codes "File"))) ≡ 256)
    × (Text.len (copy_text 255 old_title (codes "File")) ≤ 255)
test_copy_text_reads = copy_text_reads 255 256 old_title (codes "File") (omega arith) refl

abbrev zero_view : View ℕ
zero_view = record {
  frame = rect 0 0 0 0;
  bounds = rect 0 0 0 0;
  superview = 0;
  subviews = replicate 64 0;
  subview_count = 0;
  needs_display = false;
  hidden = false;
  alpha = 0;
  background_color = record { red = 0; green = 0; blue = 0; alpha = 0 };
}

abbrev zeroed : Views ℕ
zeroed x = zero_view

zeroed-IsHierarchy : IsHierarchy zeroed
zeroed-IsHierarchy = (λ x. (refl, omega arith, refl), λ x. inl refl)

abbrev shown : Views ℕ
shown =
    perform numbers (add_subview 5 6) (perform numbers (init_with_frame 5 (rect 0 0 8 6)) zeroed)

never : (a : ℕ) → 0 ≢ suc a
never a h = omega (arith, h)

shown-IsRun : IsRun numbers zeroed shown
shown-IsRun =
    call (init_with_frame 5 (rect 0 0 8 6)) (λ x. never 4) (call (add_subview 5 6) tt done)

IsRun-IsHierarchy_example : IsHierarchy shown
IsRun-IsHierarchy_example = IsRun-IsHierarchy numbers shown-IsRun zeroed-IsHierarchy

test_superview : (View.superview (shown 6) ≡ 5) × (View.subview_count (shown 5) ≡ 1)
unfolding program
test_superview = (refl, refl)

-- A view that is added to a second one is still among the subviews of the first.
test_two_parents :
    (View.subview_count (perform numbers (add_subview 9 6) shown 5) ≡ 1)
    × (View.superview (perform numbers (add_subview 9 6) shown 6) ≡ 9)
unfolding program
test_two_parents = (refl, refl)

abbrev menu : Menu
menu = record { title = old_title; items = replicate 64 0; item_count = 0 }

test_add_items_keeps_first :
    items_of (add_items 3 menu (7 ∷ (8 ∷ []))) ≡ take 64 (items_of menu ++ 7 ∷ (8 ∷ []))
test_add_items_keeps_first =
    add_items_keeps_first 3 menu (7 ∷ (8 ∷ [])) (λ h. omega (arith, h)) refl (omega arith)
      (λ h. omega (arith, h), (λ h. omega (arith, h), tt))

-- A display that numbers its windows and records what is shown; it has no room for a second window.
abbrev one_window : Display ℕ (List ℕ)
one_window = record {
  to_i32 = λ a. a;
  create_window = λ x y w h title s. (elim s [ [] ↦ some 1 | t ∷ ts ↦ none ], 1 ∷ s);
  show_window = λ w s. (w + 100) ∷ s;
  hide_window = λ w s. (w + 200) ∷ s;
  destroy_window = λ w s. (w + 300) ∷ s;
  flush_window = λ w c s. (w + 400) ∷ s;
}

abbrev no_window : Window ℕ
no_window = record {
  window_id = 77;
  frame = rect 0 0 0 0;
  style_mask = 0;
  title = old_title;
  context = none;
  content_view = 0;
}

abbrev opened : List ℕ → List ℕ
opened s =
    let r = ns_window_init numbers one_window no_window (rect 1 2 3 4) 15 s in
    ns_window_make_key_and_order_front numbers one_window r.0 r.1

-- The window that was created is shown; where none was, the stale id is used.
test_opened : (opened [] ≡ 101 ∷ (1 ∷ [])) × (opened (5 ∷ []) ≡ 177 ∷ (1 ∷ (5 ∷ [])))
unfolding program
test_opened = (refl, refl)
