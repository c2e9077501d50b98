-- ===== src/AppKit/View/Calls.antt =====
-- The tree of views under calls of crates/grafted-frameworks/src/appkit/view.rs.
use grafted.Base.{ℕ, ◌≢◌, inl, refl, Bool, length-replicate, arith}
use grafted.Cg.Geometry.{Floats, Rect}
use grafted.AppKit.View.{
  View, Views, ns_view_init_with_frame, ns_view_set_frame, ns_view_add_subview,
  ns_view_set_needs_display, ns_view_set_hidden,
}
use grafted.AppKit.View.Hierarchy.{IsHierarchy, replaced, refreshed, add_subview-IsHierarchy}

pub data ViewCall (V : Type 0) : Type 0 where
  init_with_frame : (self : ℕ) → Rect V → ViewCall V
  set_frame : (self : ℕ) → Rect V → ViewCall V
  add_subview : (self subview : ℕ) → ViewCall V
  set_needs_display : (self : ℕ) → Bool → ViewCall V
  set_hidden : (self : ℕ) → Bool → ViewCall V

module _ {V : Type 0} (f : Floats V) where
  unfoldable pub perform : ViewCall V → Views V → Views V
  perform (init_with_frame self frame) views = ns_view_init_with_frame f views self frame
  perform (set_frame self frame) views = ns_view_set_frame views self frame
  perform (add_subview self subview) views = ns_view_add_subview views self subview
  perform (set_needs_display self flag) views = ns_view_set_needs_display views self flag
  perform (set_hidden self flag) views = ns_view_set_hidden views self flag

  -- A view is initialised while it is nobody's superview.
  abbrev pub IsAllowed : ViewCall V → Views V → Type 0
  IsAllowed (init_with_frame self frame) views = (x : ℕ) → View.superview (views x) ≢ self
  IsAllowed (set_frame self frame) views = Unit {0}
  IsAllowed (add_subview self subview) views = Unit {0}
  IsAllowed (set_needs_display self flag) views = Unit {0}
  IsAllowed (set_hidden self flag) views = Unit {0}

  -- What calls make of views.
  pub data IsRun : Views V → Views V → Type 0 where
    done : {views : Views V} → IsRun views views
    call :
        {views after : Views V} (c : ViewCall V)
        → IsAllowed c views
        → IsRun (perform c views) after
        → IsRun views after

  perform-IsHierarchy :
      (c : ViewCall V) (views : Views V)
      → IsAllowed c views
      → IsHierarchy views
      → IsHierarchy (perform c views)
  unfolding perform ns_view_init_with_frame ns_view_set_frame ns_view_set_needs_display
      ns_view_set_hidden
  perform-IsHierarchy (init_with_frame self frame) views alone tree =
      replaced views self _ tree (length-replicate {A = ℕ} 64 0, omega arith, refl) (inl refl)
        (λ x at. absurd (alone x at))
  perform-IsHierarchy (set_frame self frame) views ok tree =
      refreshed views self _ tree refl refl refl refl
  perform-IsHierarchy (add_subview self subview) views ok tree =
      add_subview-IsHierarchy views self subview tree
  perform-IsHierarchy (set_needs_display self flag) views ok tree =
      refreshed views self _ tree refl refl refl (tree.0 self).2
  perform-IsHierarchy (set_hidden self flag) views ok tree =
      refreshed views self _ tree refl refl refl (tree.0 self).2

  -- Calls that initialise no view that is a superview keep the views a hierarchy: each has an array of
  -- 64 places, at most that many subviews and bounds of its frame's size, and is null's or among the
  -- subviews of its superview.
  pub IsRun-IsHierarchy :
      {views after : Views V} → IsRun views after → IsHierarchy views → IsHierarchy after
  IsRun-IsHierarchy done tree = tree
  IsRun-IsHierarchy (call {views} c ok rest) tree =
      IsRun-IsHierarchy rest (perform-IsHierarchy c views ok tree)
