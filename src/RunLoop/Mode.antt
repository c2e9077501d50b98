-- ===== src/RunLoop/Mode.antt =====
-- crates/grafted-frameworks/src/cf/runloop.rs: mode names, the run loop's data, and its making.
use grafted.Base.{
  ℕ, zero, suc, ◌+◌, Bool, true, false, ◌&&◌, ◌||◌, List, [], ◌∷◌, Option, none, some, ◌==◌, nat_eq,
  list_eq, leb, if◌then◌else◌, codes,
}
use grafted.Base.Assoc.{Map}
pub mod Names

-- A mode name is its bytes, which are ASCII.
abbrev pub ModeName : Type 0
ModeName = List ℕ

abbrev pub default_mode : ModeName
default_mode = codes "kCFRunLoopDefaultMode"

abbrev pub common_modes_name : ModeName
common_modes_name = codes "kCFRunLoopCommonModes"

abbrev pub event_tracking_mode : ModeName
event_tracking_mode = codes "NSEventTrackingRunLoopMode"

abbrev pub modal_panel_mode : ModeName
modal_panel_mode = codes "NSModalPanelRunLoopMode"

abbrev pub ui_tracking_mode : ModeName
ui_tracking_mode = codes "UITrackingRunLoopMode"

-- `CFRunLoopMode`: null, or the bytes that can be read from the pointer on.
abbrev pub ModePtr : Type 0
ModePtr = Option (ℕ → ℕ)

-- `is_ascii_graphic`, or a blank.
unfoldable pub is_printable : ℕ → Bool
is_printable b = (leb 33 b && leb b 126) || (b == 32)

-- The bytes from offset `n` up to a NUL or 64 bytes in all; `none` if one is not printable.
pub scan : ℕ → (ℕ → ℕ) → ℕ → Option ModeName
unfolding is_printable
scan zero p n = some []
scan (suc left) p n =
    let rest : Option ModeName = elim (scan left p (n + 1)) [
      | none ↦ none
      | some s ↦ some (p n ∷ s)
    ] in
    if p n == 0 then some [] else if is_printable (p n) then rest else none

abbrev or_default : Option ModeName → ModeName
or_default none = default_mode
or_default (some []) = default_mode
or_default (some (b ∷ bs)) = b ∷ bs

unfoldable pub mode_name_from_ptr : ModePtr → ModeName
unfolding scan
mode_name_from_ptr none = default_mode
mode_name_from_ptr (some p) = or_default (scan 64 p 0)

-- `CFRunLoopModeInner`; the items are pointers.
pub record Mode : Type 0 where
  pub sources : List ℕ
  pub timers : List ℕ
  pub observers : List ℕ

abbrev pub new_mode : Mode
new_mode = record { sources = []; timers = []; observers = [] }

-- `CFRunLoopInner` without its CF header and its epoll descriptor. The top of `mode_stack` is its
-- head.
pub record RunLoop : Type 0 where
  pub modes : Map ModeName Mode
  pub common_modes : List ModeName
  pub mode_stack : List ModeName
  pub stopped : Bool

-- `get_or_create_runloop`, at the first call on a thread.
unfoldable pub created : RunLoop
created = record {
  modes =
      (default_mode, new_mode)
      ∷ (event_tracking_mode, new_mode)
      ∷ (modal_panel_mode, new_mode)
      ∷ [];
  common_modes = default_mode ∷ event_tracking_mode ∷ [];
  mode_stack = [];
  stopped = false;
}

abbrev known_or_default : ModeName → ModeName
known_or_default name =
    if name == default_mode
    then default_mode
    else if name == event_tracking_mode
    then event_tracking_mode
    else if name == modal_panel_mode
    then modal_panel_mode
    else if name == ui_tracking_mode
    then ui_tracking_mode
    else default_mode

abbrev top_or_default : List ModeName → ModeName
top_or_default [] = default_mode
top_or_default (name ∷ below) = known_or_default name

-- The name behind the pointer that is returned; a null loop gives null.
unfoldable pub copy_current_mode : Option RunLoop → Option ModeName
copy_current_mode none = none
copy_current_mode (some rl) = some (top_or_default rl.mode_stack)

unfoldable pub run_loop_stop : Option RunLoop → Option RunLoop
run_loop_stop none = none
run_loop_stop (some rl) = some (record rl { stopped = true })
