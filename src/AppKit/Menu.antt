-- ===== src/AppKit/Menu.antt =====
-- crates/grafted-frameworks/src/appkit/menu.rs: menus and their items. The bytes of a title are those
-- of the CFString that is passed, `none` for null.
use grafted.Base.{
  ℕ, ◌+◌, Bool, true, false, List, [], Option, none, some, ◌==◌, nat_eq, ltb, if◌then◌else◌, set,
  replicate, ◌||◌, Bytes,
}
use grafted.AppKit.Text.{Text, copy_text}
pub mod Items

pub record Menu : Type 0 where
  pub title : Text
  pub items : List ℕ
  pub item_count : ℕ

pub record MenuItem : Type 0 where
  pub title : Text
  pub key_equiv : Text
  pub action : ℕ
  pub target : ℕ
  pub tag : ℕ
  pub enabled : Bool
  pub submenu : ℕ
  pub separator : Bool

abbrev pub copy_unless_null : ℕ → Text → Option Bytes → Text
copy_unless_null cap t none = t
copy_unless_null cap t (some bytes) = copy_text cap t bytes

unfoldable pub ns_menu_init_with_title : Menu → Option Bytes → Menu
unfolding copy_text
ns_menu_init_with_title m title = record m {
  item_count = 0;
  title = copy_unless_null 255 (Menu.title m) title;
}

-- `self_` and `item` are addresses; a null menu is not touched.
unfoldable pub ns_menu_add_item : ℕ → Menu → ℕ → Menu
ns_menu_add_item self m item =
    if (self == 0) || (item == 0)
    then m
    else if ltb (Menu.item_count m) 64
    then record m {
      items = set (Menu.items m) (Menu.item_count m) item;
      item_count = Menu.item_count m + 1;
    }
    else m

abbrev pub ns_menu_item_count : ℕ → Menu → ℕ
ns_menu_item_count self m = if self == 0 then 0 else Menu.item_count m

unfoldable pub ns_menu_item_init : MenuItem → Option Bytes → ℕ → Option Bytes → MenuItem
unfolding copy_text
ns_menu_item_init i title action key_equiv = record i {
  action = action;
  enabled = true;
  separator = false;
  title = copy_unless_null 255 (MenuItem.title i) title;
  key_equiv = copy_unless_null 15 (MenuItem.key_equiv i) key_equiv;
}

-- What `calloc` gives.
abbrev pub zeroed_item : MenuItem
zeroed_item = record {
  title = record { array = replicate 256 0; len = 0 };
  key_equiv = record { array = replicate 16 0; len = 0 };
  action = 0;
  target = 0;
  tag = 0;
  enabled = false;
  submenu = 0;
  separator = false;
}

abbrev pub ns_menu_item_separator : MenuItem
ns_menu_item_separator = record zeroed_item { separator = true }

-- The setters leave a null item alone; so does `ns_menu_set_submenu`, which does not look at its menu.
abbrev pub ns_menu_item_set_target : ℕ → MenuItem → ℕ → MenuItem
ns_menu_item_set_target self i target = if self == 0 then i else record i { target = target }

abbrev pub ns_menu_item_set_submenu : ℕ → MenuItem → ℕ → MenuItem
ns_menu_item_set_submenu self i submenu = if self == 0 then i else record i { submenu = submenu }

abbrev pub ns_menu_set_submenu : ℕ → MenuItem → ℕ → MenuItem
ns_menu_set_submenu item i submenu = if item == 0 then i else record i { submenu = submenu }

abbrev pub ns_menu_item_set_enabled : ℕ → MenuItem → Bool → MenuItem
ns_menu_item_set_enabled self i flag = if self == 0 then i else record i { enabled = flag }

abbrev pub ns_menu_item_set_tag : ℕ → MenuItem → ℕ → MenuItem
ns_menu_item_set_tag self i tag = if self == 0 then i else record i { tag = tag }
