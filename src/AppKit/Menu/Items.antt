-- ===== src/AppKit/Menu/Items.antt =====
-- The items of a menu of crates/grafted-frameworks/src/appkit/menu.rs as a list of at most 64.
use grafted.Base.{
  ℕ, zero, suc, ◌+◌, ◌≤◌, ◌<◌, ◌≡◌, ◌≢◌, refl, ◌∙◌, sym, ap, List, [], ◌∷◌, ◌++◌, set, take, length,
  length-set, arith, Bool-cases, inl, inr, ltb, nat_eq, if◌then◌else◌, length-take, length-append,
  take-length_append, take_of_length-le,
}
use mathlib.Core.List.{append-nil, append_assoc}
use grafted.AppKit.Menu.{Menu, ns_menu_add_item}

-- The items that are in use.
abbrev pub items_of : Menu → List ℕ
items_of m = take m.item_count m.items

unfoldable pub add_items : ℕ → Menu → List ℕ → Menu
unfolding ns_menu_add_item
add_items self m [] = m
add_items self m (i ∷ is) = add_items self (ns_menu_add_item self m i) is

abbrev pub AreItems : List ℕ → Type 0
AreItems [] = Unit {0}
AreItems (i ∷ is) = (i ≢ 0) × AreItems is

take-set : (xs : List ℕ) (n v : ℕ) → n < length xs → take (suc n) (set xs n v) ≡ take n xs ++ v ∷ []
take-set [] n v h = absurd (omega arith)
take-set (x ∷ xs) zero v h = refl
take-set (x ∷ xs) (suc n) v h = ap (◌∷◌ x) (take-set xs n v (omega arith))

take_full : (n : ℕ) (xs ys : List ℕ) → length xs ≡ n → take n (xs ++ ys) ≡ xs
take_full n xs ys h = ap (λ k. take k (xs ++ ys)) (sym h) ∙ take-length_append xs ys

length-items_of :
    (m : Menu) → length m.items ≡ 64 → m.item_count ≤ 64 → length (items_of m) ≡ m.item_count
length-items_of m len few = omega (arith, length-take m.item_count m.items, len, few)

abbrev with_item : Menu → ℕ → Menu
with_item m i = record m { items = set m.items m.item_count i; item_count = m.item_count + 1 }

items_of-with_item :
    (m : Menu) (i : ℕ)
    → length m.items ≡ 64
    → m.item_count < 64
    → items_of (with_item m i) ≡ items_of m ++ i ∷ []
items_of-with_item m i len room =
    ap (λ n. take n (set m.items m.item_count i)) (next m.item_count)
    ∙ take-set m.items m.item_count i (omega (arith, len, room))
  where
    next : (n : ℕ) → n + 1 ≡ suc n
    next n = omega arith

add_item_cases :
    (self : ℕ) (m : Menu) (i : ℕ)
    → self ≢ 0
    → i ≢ 0
    → ns_menu_add_item self m i ≡ (if ltb m.item_count 64 then with_item m i else m)
unfolding ns_menu_add_item
add_item_cases self m i there ok = ground (arith, there, ok)

-- Items that are added one after the other to a menu that is not null, of which none is null, are kept in order
-- behind those there were, up to 64; the others are dropped.
pub add_items_keeps_first :
    (self : ℕ) (m : Menu) (is : List ℕ)
    → self ≢ 0
    → length m.items ≡ 64
    → m.item_count ≤ 64
    → AreItems is
    → items_of (add_items self m is) ≡ take 64 (items_of m ++ is)
unfolding add_items
add_items_keeps_first self m [] there len few ok = sym (
    take_of_length-le 64 (items_of m ++ [])
      (omega (arith, length-append (items_of m) [], length-items_of m len few, few))
    ∙ append-nil (items_of m))
add_items_keeps_first self m (i ∷ is) there len few (item, rest) =
    elim (Bool-cases (ltb m.item_count 64)) [
      | inl room ↦
          let m1 : Menu = with_item m i in
          let lt : m.item_count < 64 = ground (arith, room) in
          ap (λ m. items_of (add_items self m is))
            (add_item_cases self m i there item ∙ rw room refl)
          ∙ add_items_keeps_first self m1 is there (length-set m.items m.item_count i ∙ len)
              (omega (arith, lt)) rest
          ∙ ap (λ l. take 64 (l ++ is)) (items_of-with_item m i len lt)
          ∙ ap (take 64) (append_assoc (items_of m) (i ∷ []) is)
      | inr full ↦
          let all : length (items_of m) ≡ 64 =
            ground (arith, full, few, length-items_of m len few) in
          ap (λ m. items_of (add_items self m is))
            (add_item_cases self m i there item ∙ rw full refl)
          ∙ add_items_keeps_first self m is there len few rest
          ∙ take_full 64 (items_of m) is all
          ∙ sym (take_full 64 (items_of m) (i ∷ is) all)
    ]
