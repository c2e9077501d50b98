-- ===== src/Cg/Context/States.antt =====
-- The drawing state of crates/grafted-frameworks/src/cg/context.rs and the stack of saved ones.
use grafted.Base.{Option, none, some, ◌≡◌, refl, Bool, true, false, ◌∙◌, ap, List, [], ◌∷◌, ◌++◌}
use grafted.Cf.{retain_base}
use grafted.Cg.Geometry.{Floats, AffineTransform}
use grafted.Cg.Context.{DrawState, CgContext, identity}

-- The calls that change the drawing state.
pub data StateCall (V : Type 0) : Type 0 where
  save : StateCall V
  restore : StateCall V
  fill_color : V → V → V → V → StateCall V
  stroke_color : V → V → V → V → StateCall V
  gray_fill : V → V → StateCall V
  line_width : V → StateCall V
  translate : V → V → StateCall V
  scale : V → V → StateCall V

module _ {V : Type 0} where
  unfoldable pub cg_context_retain : CgContext V → CgContext V
  cg_context_retain c = record c { base = retain_base (CgContext.base c) }

  -- The box is dropped, whatever its count.
  abbrev pub cg_context_release : CgContext V → Option (CgContext V)
  cg_context_release c = none

  unfoldable pub cg_context_save_g_state : CgContext V → CgContext V
  cg_context_save_g_state c = record c { state_stack = c.state ∷ c.state_stack }

  abbrev pub restored : CgContext V → List (DrawState V) → CgContext V
  restored c [] = c
  restored c (state ∷ rest) = record c { state = state; state_stack = rest }

  unfoldable pub cg_context_restore_g_state : CgContext V → CgContext V
  cg_context_restore_g_state c = restored c c.state_stack

  unfoldable pub cg_context_set_rgb_fill_color : CgContext V → V → V → V → V → CgContext V
  cg_context_set_rgb_fill_color c r g b a = record c {
    state = record (CgContext.state c) {
      fill_color = record { red = r; green = g; blue = b; alpha = a };
    };
  }

  unfoldable pub cg_context_set_rgb_stroke_color : CgContext V → V → V → V → V → CgContext V
  cg_context_set_rgb_stroke_color c r g b a = record c {
    state = record (CgContext.state c) {
      stroke_color = record { red = r; green = g; blue = b; alpha = a };
    };
  }

  unfoldable pub cg_context_set_gray_fill_color : CgContext V → V → V → CgContext V
  unfolding cg_context_set_rgb_fill_color
  cg_context_set_gray_fill_color c gray a = cg_context_set_rgb_fill_color c gray gray gray a

  unfoldable pub cg_context_set_line_width : CgContext V → V → CgContext V
  cg_context_set_line_width c width = record c {
    state = record (CgContext.state c) { line_width = width };
  }

  abbrev pub is_setter : StateCall V → Bool
  is_setter save = false
  is_setter restore = false
  is_setter (fill_color r g b a) = true
  is_setter (stroke_color r g b a) = true
  is_setter (gray_fill v a) = true
  is_setter (line_width w) = true
  is_setter (translate tx ty) = true
  is_setter (scale sx sy) = true

  -- Every saved state is restored, and none that was saved before.
  pub data IsBalanced : List (StateCall V) → Type 0 where
    nothing : IsBalanced []
    setter :
        {cs : List (StateCall V)} (c : StateCall V)
        → is_setter c ≡ true
        → IsBalanced cs
        → IsBalanced (c ∷ cs)
    nested :
        {cs ds : List (StateCall V)}
        → IsBalanced cs
        → IsBalanced ds
        → IsBalanced (save ∷ (cs ++ restore ∷ ds))

  module _ (f : Floats V) where
    -- The identity for a null context.
    unfoldable pub cg_context_get_ctm : Option (CgContext V) → AffineTransform V
    cg_context_get_ctm none = identity f
    cg_context_get_ctm (some c) = c.state.transform

    unfoldable pub cg_context_translate_ctm : CgContext V → V → V → CgContext V
    cg_context_translate_ctm c tx ty =
        let t = DrawState.transform (CgContext.state c) in
        record c {
          state = record (CgContext.state c) {
            transform = record t {
              tx = f.add (AffineTransform.tx t) tx;
              ty = f.add (AffineTransform.ty t) ty;
            };
          };
        }

    unfoldable pub cg_context_scale_ctm : CgContext V → V → V → CgContext V
    cg_context_scale_ctm c sx sy =
        let t = DrawState.transform (CgContext.state c) in
        record c {
          state = record (CgContext.state c) {
            transform = record t {
              a = f.mul (AffineTransform.a t) sx;
              d = f.mul (AffineTransform.d t) sy;
            };
          };
        }

    unfoldable pub perform : StateCall V → CgContext V → CgContext V
    perform save c = cg_context_save_g_state c
    perform restore c = cg_context_restore_g_state c
    perform (fill_color r g b a) c = cg_context_set_rgb_fill_color c r g b a
    perform (stroke_color r g b a) c = cg_context_set_rgb_stroke_color c r g b a
    perform (gray_fill v a) c = cg_context_set_gray_fill_color c v a
    perform (line_width w) c = cg_context_set_line_width c w
    perform (translate tx ty) c = cg_context_translate_ctm c tx ty
    perform (scale sx sy) c = cg_context_scale_ctm c sx sy

    unfoldable pub perform_all : List (StateCall V) → CgContext V → CgContext V
    unfolding perform
    perform_all [] c = c
    perform_all (call ∷ calls) c = perform_all calls (perform call c)

    perform_all-append :
        (cs ds : List (StateCall V)) (c : CgContext V)
        → perform_all (cs ++ ds) c ≡ perform_all ds (perform_all cs c)
    unfolding perform_all
    perform_all-append [] ds c = refl
    perform_all-append (call ∷ cs) ds c = perform_all-append cs ds (perform call c)

    setter_keeps :
        (call : StateCall V) (c : CgContext V)
        → is_setter call ≡ true
        → (s : DrawState V) × (perform call c ≡ record c { state = s })
    unfolding perform cg_context_set_rgb_fill_color cg_context_set_rgb_stroke_color
        cg_context_set_gray_fill_color cg_context_set_line_width cg_context_translate_ctm
        cg_context_scale_ctm
    setter_keeps save c h = absurd cc
    setter_keeps restore c h = absurd cc
    setter_keeps (fill_color r g b a) c h = (_, refl)
    setter_keeps (stroke_color r g b a) c h = (_, refl)
    setter_keeps (gray_fill v a) c h = (_, refl)
    setter_keeps (line_width w) c h = (_, refl)
    setter_keeps (translate tx ty) c h = (_, refl)
    setter_keeps (scale sx sy) c h = (_, refl)

    IsBalanced-keeps :
        {cs : List (StateCall V)} (c : CgContext V)
        → IsBalanced cs
        → (s : DrawState V) × (perform_all cs c ≡ record c { state = s })
    unfolding perform_all cg_context_save_g_state cg_context_restore_g_state
    IsBalanced-keeps c nothing = (c.state, refl)
    IsBalanced-keeps c (setter {cs} call plain rest) =
        let (s, e) = setter_keeps call c plain in
        let (s1, e1) = IsBalanced-keeps (record c { state = s }) rest in
        (s1, ap (perform_all cs) e ∙ e1)
    IsBalanced-keeps c (nested {cs} {ds} inner rest) =
        let saved = record c { state_stack = c.state ∷ c.state_stack } in
        let (s, e) = IsBalanced-keeps saved inner in
        let (s1, e1) = IsBalanced-keeps c rest in
        (s1, perform_all-append cs (restore ∷ ds) saved ∙ ap (perform_all (restore ∷ ds)) e ∙ e1)

    -- Calls between which every saved state is restored, once the state is saved before them and
    -- restored after them, leave the context as it was: its state, its stack and its pixels.
    pub restore-save :
        {cs : List (StateCall V)} (c : CgContext V)
        → IsBalanced cs
        → perform_all (save ∷ (cs ++ restore ∷ [])) c ≡ c
    unfolding perform_all cg_context_save_g_state cg_context_restore_g_state
    restore-save {cs} c balanced =
        let saved = record c { state_stack = c.state ∷ c.state_stack } in
        let (s, e) = IsBalanced-keeps saved balanced in
        perform_all-append cs (restore ∷ []) saved ∙ ap (perform_all (restore ∷ [])) e
