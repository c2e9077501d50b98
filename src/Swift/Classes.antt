-- ===== src/Swift/Classes.antt =====
-- crates/grafted-frameworks/src/swift_metadata_translate.rs: the fields of Swift classes are moved to
-- where the Linux runtime looks for them. `mprotect`, whose result is ignored, and the counts that
-- are logged are left out; so is the walk over type descriptors, which only reads and counts.
use grafted.Base.{
  ℕ, zero, suc, ◌+◌, ◌-◌, ◌/◌, ◌%◌, ◌≤◌, ◌<◌, ◌≡◌, ◌⊎◌, inl, inr, refl, ◌∙◌, ap, Bool, true, false,
  not, ◌&&◌, ◌||◌, List, [], ◌∷◌, ◌==◌, nat_eq, ltb, leb, if◌then◌else◌, arith, u64, Bool-cases,
  Option, none, some, codes, list_eq,
}
use grafted.Loader.Format.{Section}
use grafted.Loader.Memory.{Memory, read_word, read_word-cong}

-- `ptr::copy`: the bytes that are read are those from before.
unfoldable pub move_bytes : ℕ → ℕ → ℕ → Memory → Memory
move_bytes src dst n m x = if leb dst x && ltb x (dst + n) then m (src + (x - dst)) else m x

-- 40 bytes from offset 40 to offset 16.
abbrev pub shift_fields : ℕ → Memory → Memory
shift_fields cls m = move_bytes (cls + 40) (cls + 16) 40 m

abbrev pub kind_at : Memory → ℕ → ℕ
kind_at m descriptor = read_word 4 m descriptor % 32

abbrev pub is_swift_class : Memory → ℕ → Bool
is_swift_class m cls =
    let desc_val = read_word 8 m (cls + 64) in
    not (ltb cls 0x1000)
    && (not (ltb desc_val 0x100000000 || ltb 0x200000000 desc_val) && (kind_at m desc_val == 16))

abbrev pub is_swift_metaclass : Memory → ℕ → Bool
is_swift_metaclass m isa =
    let meta_desc = read_word 8 m (isa + 64) in
    (ltb 0x100000000 isa && ltb isa 0x200000000)
    && (leb 0x100000000 meta_desc && ltb meta_desc 0x200000000)

-- The metaclass is looked at after the class was written.
unfoldable pub fix_objc_class_prefix : ℕ → Memory → Memory × Bool
unfolding move_bytes read_word
fix_objc_class_prefix cls m =
    let m1 = shift_fields cls m in
    let isa = read_word 8 m1 cls in
    if not (is_swift_class m cls)
    then (m, false)
    else if is_swift_metaclass m1 isa
    then (shift_fields isa m1, true)
    else (m1, true)

-- The loop over `__objc_classlist`, whose `n` pointers start at `ptrs`; null ones are skipped.
unfoldable pub fix_classes : ℕ → ℕ → Memory → Memory × ℕ
fix_classes zero ptrs m = (m, 0)
fix_classes (suc n) ptrs m =
    let cls = read_word 8 m ptrs in
    let r = fix_objc_class_prefix cls m in
    elim (cls == 0) [
      | true ↦ fix_classes n (ptrs + 8) m
      | false ↦ let rest = fix_classes n (ptrs + 8) r.0 in (rest.0, rest.1 + (if r.1 then 1 else 0))
    ]

-- The loops over segments and sections; a section that cannot be read is skipped.
unfoldable pub fix_sections : ℕ → List (Option Section) → Memory → Memory
fix_sections slide [] m = m
fix_sections slide (none ∷ sections) m = fix_sections slide sections m
fix_sections slide (some section ∷ sections) m = fix_sections slide sections (
    if Section.section_name section == codes "__objc_classlist"
    then (fix_classes (Section.size section / 8) (u64 (Section.addr section + slide)) m).0
    else m)

unfoldable pub translate_swift_metadata : ℕ → List (List (Option Section)) → Memory → Memory
unfolding fix_sections
translate_swift_metadata slide [] m = m
translate_swift_metadata slide (sections ∷ segments) m =
    translate_swift_metadata slide segments (fix_sections slide sections m)

move_bytes-inside :
    (src dst n : ℕ) (m : Memory) (i : ℕ) → i < n → move_bytes src dst n m (dst + i) ≡ m (src + i)
unfolding move_bytes
move_bytes-inside src dst n m i h = ground (arith, h, ap (λ k. m (src + k)) (cancel dst i))
  where
    cancel : (dst i : ℕ) → dst + i - dst ≡ i
    cancel dst i = omega arith

move_bytes-outside :
    (src dst n : ℕ) (m : Memory) (x : ℕ)
    → (x < dst) ⊎ (dst + n ≤ x)
    → move_bytes src dst n m x ≡ m x
unfolding move_bytes
move_bytes-outside src dst n m x (inl h) = ground (arith, h)
move_bytes-outside src dst n m x (inr h) = ground (arith, h)

-- The pointer to the metaclass lies before what is written.
isa-shift_fields : (cls : ℕ) (m : Memory) → read_word 8 (shift_fields cls m) cls ≡ read_word 8 m cls
isa-shift_fields cls m =
    read_word-cong 8 (shift_fields cls m) m cls
      (λ x lo hi. move_bytes-outside (cls + 40) (cls + 16) 40 m x (inl (omega (arith, hi))))

fixed_as :
    (cls isa : ℕ) (m : Memory)
    → is_swift_class m cls ≡ true
    → read_word 8 (shift_fields cls m) cls ≡ isa
    → fix_objc_class_prefix cls m ≡ (
        if is_swift_metaclass (shift_fields cls m) isa
        then (shift_fields isa (shift_fields cls m), true)
        else (shift_fields cls m, true))
unfolding fix_objc_class_prefix
fixed_as cls isa m swift at = rw (swift, at) refl

moved :
    (cls : ℕ) (m : Memory) (i : ℕ)
    → (40 ≤ i) ⊎ (shift_fields cls m (cls + 16 + i) ≡ m (cls + 40 + i))
moved cls m i = elim (Bool-cases (ltb i 40)) [
  | inl h ↦ inr (move_bytes-inside (cls + 40) (cls + 16) 40 m i (ground (arith, h)))
  | inr h ↦ inl (ground (arith, h))
]

shift_outside :
    (cls : ℕ) (m : Memory) (x : ℕ)
    → ((cls + 16 ≤ x) × (x < cls + 56)) ⊎ (shift_fields cls m x ≡ m x)
shift_outside cls m x = elim (Bool-cases (leb (cls + 16) x)) [
  | inr h ↦ inr (move_bytes-outside (cls + 40) (cls + 16) 40 m x (inl (ground (arith, h))))
  | inl lo ↦ elim (Bool-cases (ltb x (cls + 56))) [
    | inl hi ↦ inl (ground (arith, lo), ground (arith, hi))
    | inr h ↦ inr (move_bytes-outside (cls + 40) (cls + 16) 40 m x (inr (ground (arith, h))))
  ]
]

-- The shift of the metaclass leaves that of the class.
moved_first :
    (cls isa : ℕ) (m : Memory) (i : ℕ)
    → (isa + 80 ≤ cls) ⊎ (cls + 80 ≤ isa)
    → (40 ≤ i) ⊎ (shift_fields isa (shift_fields cls m) (cls + 16 + i) ≡ m (cls + 40 + i))
moved_first cls isa m i apart = elim (moved cls m i) [
  | inl h ↦ inl h
  | inr e ↦ elim (shift_outside isa (shift_fields cls m) (cls + 16 + i)) [
    | inr same ↦ inr (same ∙ e)
    | inl (lo, hi) ↦
        inl (elim apart [ inl a ↦ absurd (omega (arith, a, hi)) | inr a ↦ omega (arith, a, lo) ])
  ]
]

unchanged_one :
    (cls isa : ℕ) (m : Memory) (x : ℕ)
    → (((cls + 16 ≤ x) × (x < cls + 56)) ⊎ ((isa + 16 ≤ x) × (x < isa + 56)))
      ⊎ (shift_fields cls m x ≡ m x)
unchanged_one cls isa m x = elim (shift_outside cls m x) [ inl h ↦ inl (inl h) | inr e ↦ inr e ]

unchanged :
    (cls isa : ℕ) (m : Memory) (x : ℕ)
    → (((cls + 16 ≤ x) × (x < cls + 56)) ⊎ ((isa + 16 ≤ x) × (x < isa + 56)))
      ⊎ (shift_fields isa (shift_fields cls m) x ≡ m x)
unchanged cls isa m x = elim (shift_outside isa (shift_fields cls m) x) [
  | inl h ↦ inl (inr h)
  | inr e ↦ elim (shift_outside cls m x) [ inl h ↦ inl (inl h) | inr e1 ↦ inr (e ∙ e1) ]
]

-- A Swift class whose metaclass does not overlap it gets the 40 bytes of its fields to where Linux
-- has them, the call says that it was changed, and all bytes of memory outside of the fields of the
-- class and of the metaclass are what they were.
pub fix_objc_class_prefix_moves :
    (cls isa : ℕ) (m : Memory)
    → is_swift_class m cls ≡ true
    → read_word 8 m cls ≡ isa
    → (isa + 80 ≤ cls) ⊎ (cls + 80 ≤ isa)
    → ((fix_objc_class_prefix cls m).1 ≡ true)
      × ((i : ℕ) → (40 ≤ i) ⊎ ((fix_objc_class_prefix cls m).0 (cls + 16 + i) ≡ m (cls + 40 + i)))
      × ((x : ℕ)
          → (((cls + 16 ≤ x) × (x < cls + 56)) ⊎ ((isa + 16 ≤ x) × (x < isa + 56)))
            ⊎ ((fix_objc_class_prefix cls m).0 x ≡ m x))
fix_objc_class_prefix_moves cls isa m swift at apart =
    rw (fixed_as cls isa m swift (isa-shift_fields cls m ∙ at))
      (elim (Bool-cases (is_swift_metaclass (shift_fields cls m) isa)) [
        | inl yes_ ↦ rw yes_ (refl, λ i. moved_first cls isa m i apart, λ x. unchanged cls isa m x)
        | inr no_ ↦ rw no_ (refl, λ i. moved cls m i, λ x. unchanged_one cls isa m x)
      ])
