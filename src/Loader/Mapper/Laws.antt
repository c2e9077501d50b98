-- ===== src/Loader/Mapper/Laws.antt =====
-- Where a segment's bytes go, and the entry point.
use grafted.Base.{
  ℕ, ◌+◌, ◌-◌, ◌^◌, ◌≤◌, ◌<◌, ◌≡◌, ◌≢◌, true, List, [], ◌∷◌, some, nat_eq, list_eq, u64, length,
  length-take, length-drop, drop, Bytes, arith, Bool-cases, inl, inr,
}
use grafted.Loader.Outcome.{Outcome, Outcome-cases}
use grafted.Loader.Format.{Segment, MachOBinary}
use grafted.Loader.Mapper.{
  Os, find_text, text_vmaddr, map_segment, map_segments, choose_slide, entry_address, map_binary,
}
use grafted.Loader.Mapper.Calls.{
  Call, recorder, has_bytes, segment_calls, IsMappable, map_segment-calls,
}

-- What the calls map, write and protect lies within `size` bytes from `at` on.
abbrev pub AreWithin : ℕ → ℕ → List Call → Type 0
AreWithin at size [] = Unit {0}
AreWithin at size (Call.mapped where_to n prot ∷ calls) =
    (where_to ≡ some at) × (n ≤ size) × AreWithin at size calls
AreWithin at size (Call.copied to bytes ∷ calls) =
    (at ≤ to) × (to + length bytes ≤ at + size) × AreWithin at size calls
AreWithin at size (Call.protected to n prot ∷ calls) =
    (at ≤ to) × (to + n ≤ at + size) × AreWithin at size calls
AreWithin at size (Call.unmapped to n ∷ calls) = ⊥

-- A segment that is not empty, whose address and offsets do not wrap and which is not mapped at 0, is
-- mapped, written and protected within its own size in memory, by a system that grants each call, if
-- its size in the file is at most that. The code does not check it: of a larger one that the file
-- has, bytes are copied beyond the mapping.
pub map_segment-AreWithin :
    (free : ℕ) (seg : Segment) (file : Bytes) (slide : ℕ)
    → IsMappable seg slide
    → seg.vmsize ≢ 0
    → (seg.filesize ≤ seg.vmsize
        → AreWithin
            (seg.vmaddr + slide)
            seg.vmsize
            (map_segment (recorder free) seg file slide []).1)
      × (seg.vmsize < seg.filesize
          → seg.fileoff + seg.filesize ≤ length file
          → ¬ AreWithin
              (seg.vmaddr + slide)
              seg.vmsize
              (map_segment (recorder free) seg file slide []).1)
map_segment-AreWithin free seg file slide mappable sized =
    let at = seg.vmaddr + slide in
    let calls : map_segment (recorder free) seg file slide []
        ≡ (Outcome.ok tt, segment_calls seg file at) =
      map_segment-calls free seg file slide [] mappable (ground (arith, sized)) in
    rw calls (elim (Bool-cases (has_bytes seg file)) [
      | inl h ↦
          ground
            (arith, length-take seg.filesize (drop seg.fileoff file), length-drop seg.fileoff file)
      | inr h ↦ ground arith
    ])

choose_slide_fixed :
    {S : Type 0} (os : Os S) (segs : List Segment) (s : S) (base : ℕ)
    → text_vmaddr segs ≢ 0
    → (choose_slide os segs s).0 ≡ Outcome.ok base
    → base ≡ 0
unfolding choose_slide
choose_slide_fixed os segs s base fixed h = ground arith

entry_address_offset :
    (b : MachOBinary) (slide entry : ℕ) (ts : Segment)
    → entry_address b slide ≡ Outcome.ok entry
    → b.entry_is_offset ≡ true
    → find_text b.segments ≡ some ts
    → ts.vmaddr + slide < 2 ^ 64
    → ts.fileoff ≤ ts.vmaddr + slide
    → ts.vmaddr + slide - ts.fileoff + b.entry_point < 2 ^ 64
    → entry + ts.fileoff ≡ ts.vmaddr + slide + b.entry_point
unfolding entry_address
entry_address_offset b slide entry ts h is_offset found in_space after in_range =
    let e : entry ≡ u64 (u64 (u64 (ts.vmaddr + slide) + 2 ^ 64 - ts.fileoff) + b.entry_point) =
      ground arith in
    omega arith

map_binary_parts :
    {S : Type 0} (os : Os S) (b : MachOBinary) (s : S) (entry slide : ℕ)
    → (map_binary os b s).0 ≡ Outcome.ok (entry, slide)
    → ((choose_slide os b.segments s).0 ≡ Outcome.ok slide)
      × (entry_address b slide ≡ Outcome.ok entry)
unfolding map_binary
map_binary_parts os b s entry slide h = elim (Outcome-cases (choose_slide os b.segments s).0) [
  | inr failed ↦ ground arith
  | inl (base, chosen) ↦
      let s1 = (choose_slide os b.segments s).1 in
      elim (Outcome-cases (map_segments os b.segments b.data_bytes base s1).0) [
        | inr failed ↦ ground arith
        | inl (t, mapped) ↦ elim (Outcome-cases (entry_address b base)) [
          | inr failed ↦ ground arith
          | inl (e, found) ↦ ground arith
        ]
      ]
]

-- Whatever the system answers, if a binary with LC_MAIN is mapped, its entry is at the entry
-- offset from where the file's start would be mapped, next to its slid `__TEXT`; a binary whose
-- `__TEXT` is not at 0 is not slid.
pub map_binary_entry :
    {S : Type 0} (os : Os S) (b : MachOBinary) (s : S) (entry slide : ℕ) (ts : Segment)
    → (map_binary os b s).0 ≡ Outcome.ok (entry, slide)
    → (text_vmaddr b.segments ≢ 0 → slide ≡ 0)
      × (b.entry_is_offset ≡ true
          → find_text b.segments ≡ some ts
          → ts.vmaddr + slide < 2 ^ 64
          → ts.fileoff ≤ ts.vmaddr + slide
          → ts.vmaddr + slide - ts.fileoff + b.entry_point < 2 ^ 64
          → entry + ts.fileoff ≡ ts.vmaddr + slide + b.entry_point)
map_binary_entry os b s entry slide ts h =
    let (chosen, found) = map_binary_parts os b s entry slide h in
    (
      λ fixed. choose_slide_fixed os b.segments s slide fixed chosen,
      entry_address_offset b slide entry ts found,
    )
