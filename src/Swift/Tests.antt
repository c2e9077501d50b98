-- ===== src/Swift/Tests.antt =====
-- The theorem on Swift classes at a concrete input, and runs of the functions of Swift's files under
-- crates/grafted-frameworks/src.
use grafted.Base.{
  if◌then◌else◌, ℕ, ◌+◌, ◌≤◌, ◌<◌, ◌≡◌, ◌⊎◌, inl, refl, true, [], ◌∷◌, none, some, arith, codes,
  ◌==◌, nat_eq, list_eq, Bytes,
}
use grafted.Loader.Memory.{Memory, read_word, write_word}
use grafted.Swift.Strings.{DarwinString, pack_bytes, pack, to_linux_string}
use grafted.Swift.Classes.{
  move_bytes, fix_objc_class_prefix, fix_classes, fix_objc_class_prefix_moves,
}
use grafted.Swift.Sections.{
  put_section, collect, collect_all, register_swift_sections, empty_sections,
}

program : Unit {0}
unfolding read_word write_word pack_bytes pack to_linux_string move_bytes fix_objc_class_prefix
    fix_classes put_section collect collect_all register_swift_sections
program = tt

abbrev no_bytes : ℕ → Bytes
no_bytes a = codes "a string that is longer than fifteen bytes"

abbrev hi : DarwinString
hi = record { word0 = 0x6968; word1 = 0xe200000000000000 }

test_small : to_linux_string no_bytes hi ≡ record { word0 = 0x6968; word1 = 0xe200000000000000 }
unfolding program
test_small = refl

-- A bridged string of 42 bytes is cut to 15.
test_bridged :
    to_linux_string no_bytes (record { word0 = 5; word1 = 0x4000000000000000 })
    ≡ record { word0 = 0x676e697274732061; word1 = 0xef69207461687420 }
unfolding program
test_bridged = refl

-- The class at 0x2000, with a descriptor of kind 16 and no metaclass in range.
abbrev memory : Memory
memory x =
    if x == 0x2000 + 64 + 4
    then 1
    else if x == 0x100000000
    then 16
    else if x == 0x2000 + 45
    then 7
    else 0

fix_objc_class_prefix_moves_example :
    ((fix_objc_class_prefix 0x2000 memory).1 ≡ true)
    × ((i : ℕ)
        → (40 ≤ i)
          ⊎ ((fix_objc_class_prefix 0x2000 memory).0 (0x2000 + 16 + i) ≡ memory (0x2000 + 40 + i)))
    × ((x : ℕ)
        → (((0x2000 + 16 ≤ x) × (x < 0x2000 + 56)) ⊎ ((0 + 16 ≤ x) × (x < 0 + 56)))
          ⊎ ((fix_objc_class_prefix 0x2000 memory).0 x ≡ memory x))
unfolding program
fix_objc_class_prefix_moves_example =
    fix_objc_class_prefix_moves 0x2000 0 memory refl refl (inl (omega arith))

test_registered :
    register_swift_sections true
      (some (record {
        text_vmaddr = some 100;
        sections =
            (some (record { section_name = codes "__swift5_types"; addr = 200; size = 12 })
              ∷ (none ∷ []))
            ∷ [];
      }))
      1000
    ≡ some (record (empty_sections 1100) {
      swift5_type_metadata = record { start = 1200; length = 12 };
    })
unfolding program
test_registered = refl
