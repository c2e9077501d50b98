-- ===== src/Loader/Mapper.antt =====
-- crates/grafted-loader/src/mapper.rs: mapping the segments of a binary.
-- The operating system is a parameter: the record `Os` with its four calls on a state `S`.
-- Addresses are u64, and sums of them wrap.
pub mod Calls
pub mod Laws
pub mod Refused
use grafted.Base.{
  ℕ, ◌+◌, ◌-◌, ◌^◌, Bool, true, false, not, ◌&&◌, List, [], ◌∷◌, Option, none, some, ◌==◌, nat_eq,
  list_eq, leb, ltb, if◌then◌else◌, has_bit, u64, max, length, take, drop, Bytes, codes,
}
use grafted.Loader.Outcome.{Outcome, LoaderError}
use grafted.Loader.Format.{Segment, MachOBinary}

pub record ProtFlags : Type 0 where
  pub read : Bool
  pub write : Bool
  pub exec : Bool

abbrev pub macho_prot_to_linux : ℕ → ProtFlags
macho_prot_to_linux prot = record {
  read = has_bit prot 0;
  write = has_bit prot 1;
  exec = has_bit prot 2;
}

abbrev pub read_write : ProtFlags
read_write = record { read = true; write = true; exec = false }

abbrev pub prot_none : ProtFlags
prot_none = record { read = false; write = false; exec = false }

-- `mmap_anonymous` with MAP_PRIVATE, at a fixed address or at one that the kernel picks; the copy
-- of bytes to an address; `mprotect`, with whether it succeeds; `munmap`, whose result is ignored.
pub record Os (S : Type 0) : Type 0 where
  pub mmap : Option ℕ → ℕ → ProtFlags → S → Option ℕ × S
  pub copy : ℕ → Bytes → S → S
  pub mprotect : ℕ → ℕ → ProtFlags → S → Bool × S
  pub munmap : ℕ → ℕ → S → S

abbrev pub pagezero : Bytes
pagezero = codes "__PAGEZERO"

abbrev pub is_text : Segment → Bool
is_text seg = Segment.name seg == codes "__TEXT"

abbrev pub find_text : List Segment → Option Segment
find_text [] = none
find_text (seg ∷ segs) = if is_text seg then some seg else find_text segs

abbrev pub text_vmaddr : List Segment → ℕ
text_vmaddr [] = 0
text_vmaddr (seg ∷ segs) = if is_text seg then seg.vmaddr else text_vmaddr segs

-- The end of the last segment but `__PAGEZERO`.
abbrev pub total_size : List Segment → ℕ
total_size [] = 0
total_size (seg ∷ segs) =
    let rest = total_size segs in
    if Segment.name seg == pagezero then rest else max (u64 (seg.vmaddr + seg.vmsize)) rest

-- What is copied into a mapping: the segment's bytes, if the file has them all. The sum of the
-- offset and the size wraps, and the slice from the offset on panics beyond the file.
abbrev pub file_part : Segment → Bytes → Outcome (Option Bytes)
file_part seg file =
    if ltb 0 seg.filesize && leb (u64 (seg.fileoff + seg.filesize)) (length file)
    then (if leb seg.fileoff (length file)
        then Outcome.ok (some (take seg.filesize (drop seg.fileoff file)))
        else Outcome.panicked)
    else Outcome.ok none

-- The address 0 is no address: the kernel picks one.
abbrev pub fixed_at : ℕ → Option ℕ
fixed_at vmaddr = if vmaddr == 0 then none else some vmaddr

unfoldable pub entry_address : MachOBinary → ℕ → Outcome ℕ
entry_address b slide =
    if b.entry_is_offset
    then elim (find_text b.segments) [
      | none ↦ Outcome.err LoaderError.no_text_segment
      | some ts ↦
          Outcome.ok (u64 (u64 (u64 (ts.vmaddr + slide) + 2 ^ 64 - ts.fileoff) + b.entry_point))
    ]
    else Outcome.ok (u64 (b.entry_point + slide))

module _ {S : Type 0} (os : Os S) where
  open os use {mmap, copy, mprotect, munmap}

  -- The end of `map_segment`: the protection that the segment asks for.
  unfoldable pub protect : Segment → ℕ → S → Outcome (Unit {0}) × S
  protect seg at s =
      let (done, s') = mprotect at seg.vmsize (macho_prot_to_linux seg.initprot) s in
      if done then (Outcome.ok tt, s') else (Outcome.err LoaderError.mmap_error, s')

  unfoldable pub fill : Segment → Bytes → ℕ → S → Outcome (Unit {0}) × S
  fill seg file at s = elim (file_part seg file) [
    | Outcome.ok none ↦ protect seg at s
    | Outcome.ok (some bytes) ↦ protect seg at (copy at bytes s)
    | Outcome.err e ↦ (Outcome.err e, s)
    | Outcome.panicked ↦ (Outcome.panicked, s)
  ]

  unfoldable pub map_segment : Segment → Bytes → ℕ → S → Outcome (Unit {0}) × S
  map_segment seg file slide s =
      if seg.vmsize == 0
      then (Outcome.ok tt, s)
      else let (at, s') = mmap (fixed_at (u64 (seg.vmaddr + slide))) seg.vmsize read_write s in
        elim at [ none ↦ (Outcome.err LoaderError.mmap_error, s') | some p ↦ fill seg file p s' ]

  -- The loop over the segments, which ends at the first error.
  unfoldable pub map_segments : List Segment → Bytes → ℕ → S → Outcome (Unit {0}) × S
  map_segments [] file slide s = (Outcome.ok tt, s)
  map_segments (seg ∷ segs) file slide s =
      if Segment.name seg == pagezero
      then map_segments segs file slide s
      else let (done, s') = map_segment seg file slide s in
        elim done [
          | Outcome.ok t ↦ map_segments segs file slide s'
          | Outcome.err e ↦ (Outcome.err e, s')
          | Outcome.panicked ↦ (Outcome.panicked, s')
        ]

  -- A binary whose `__TEXT` is at 0 or missing is slid to a free region, which is found by
  -- mapping and unmapping it.
  unfoldable pub choose_slide : List Segment → S → Outcome ℕ × S
  choose_slide segs s =
      if text_vmaddr segs == 0
      then (if total_size segs == 0
          then (Outcome.err LoaderError.mmap_error, s)
          else let (region, s') = mmap none (total_size segs) prot_none s in
            elim region [
              | none ↦ (Outcome.err LoaderError.mmap_error, s')
              | some base ↦ (Outcome.ok base, munmap base (total_size segs) s')
            ])
      else (Outcome.ok 0, s)

  -- The entry point and the slide.
  unfoldable pub map_binary : MachOBinary → S → Outcome (ℕ × ℕ) × S
  map_binary b s =
      let (chosen, s1) = choose_slide b.segments s in
      elim chosen [
        | Outcome.err e ↦ (Outcome.err e, s1)
        | Outcome.panicked ↦ (Outcome.panicked, s1)
        | Outcome.ok slide ↦
            let (mapped, s2) = map_segments b.segments b.data_bytes slide s1 in
            elim mapped [
              | Outcome.err e ↦ (Outcome.err e, s2)
              | Outcome.panicked ↦ (Outcome.panicked, s2)
              | Outcome.ok t ↦ elim (entry_address b slide) [
                | Outcome.err e ↦ (Outcome.err e, s2)
                | Outcome.panicked ↦ (Outcome.panicked, s2)
                | Outcome.ok entry ↦ (Outcome.ok (entry, slide), s2)
              ]
            ]
      ]
