-- ===== src/AppKit/View.antt =====
-- crates/grafted-frameworks/src/appkit/view.rs: the data of views, and the tree that they form.
pub mod Hierarchy
pub mod Calls
use grafted.Base.{ℕ, ◌+◌, Bool, true, false, List, ◌==◌, nat_eq, ltb, if◌then◌else◌, set, replicate}
use grafted.Cg.Geometry.{Floats, Rect}
use grafted.Cg.Context.{Rgba}

pub record View (V : Type 0) : Type 0 where
  pub frame : Rect V
  pub bounds : Rect V
  pub superview : ℕ
  pub subviews : List ℕ
  pub subview_count : ℕ
  pub needs_display : Bool
  pub hidden : Bool
  pub alpha : V
  pub background_color : Rgba V

-- The views by their addresses.
abbrev pub Views : Type 0 → Type 0
Views V = ℕ → View V

module _ {V : Type 0} where
  unfoldable pub put_view : Views V → ℕ → View V → Views V
  put_view views a v x = if a == x then v else views x

  unfoldable pub ns_view_init_with_frame : Floats V → Views V → ℕ → Rect V → Views V
  unfolding put_view
  ns_view_init_with_frame f views self frame = put_view views self (record {
    frame = frame;
    bounds = record { origin = record { x = f.zero; y = f.zero }; size = frame.size };
    superview = 0;
    subviews = replicate 64 0;
    subview_count = 0;
    needs_display = true;
    hidden = false;
    alpha = f.one;
    background_color = record { red = f.one; green = f.one; blue = f.one; alpha = f.one };
  })

  abbrev pub ns_view_frame : Views V → ℕ → Rect V
  ns_view_frame views self = View.frame (views self)

  abbrev pub ns_view_bounds : Views V → ℕ → Rect V
  ns_view_bounds views self = View.bounds (views self)

  unfoldable pub ns_view_set_frame : Views V → ℕ → Rect V → Views V
  unfolding put_view
  ns_view_set_frame views self frame =
      let v = views self in
      put_view views self (record v {
        frame = frame;
        bounds = record (View.bounds v) { size = frame.size };
        needs_display = true;
      })

  -- `subviews[idx] = subview` and the count.
  abbrev pub with_subview : View V → ℕ → View V
  with_subview v subview = record v {
    subviews = set (View.subviews v) (View.subview_count v) subview;
    subview_count = View.subview_count v + 1;
  }

  abbrev pub with_superview : View V → ℕ → View V
  with_superview v superview = record v { superview = superview }

  -- The two writes are made one after the other: a view may be added to itself.
  unfoldable pub ns_view_add_subview : Views V → ℕ → ℕ → Views V
  ns_view_add_subview views self subview =
      let added = put_view views self (with_subview (views self) subview) in
      if subview == 0
      then views
      else if ltb (View.subview_count (views self)) 64
      then put_view added subview (with_superview (added subview) self)
      else views

  abbrev pub ns_view_superview : Views V → ℕ → ℕ
  ns_view_superview views self = View.superview (views self)

  unfoldable pub ns_view_set_needs_display : Views V → ℕ → Bool → Views V
  unfolding put_view
  ns_view_set_needs_display views self flag =
      put_view views self (record (views self) { needs_display = flag })

  abbrev pub ns_view_is_hidden : Views V → ℕ → Bool
  ns_view_is_hidden views self = View.hidden (views self)

  unfoldable pub ns_view_set_hidden : Views V → ℕ → Bool → Views V
  unfolding put_view
  ns_view_set_hidden views self flag = put_view views self (record (views self) { hidden = flag })
