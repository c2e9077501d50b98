-- ===== src/Loader/Mapper/Calls.antt =====
-- The system calls that mapping a binary makes, and in which order.
use mathlib.Core.List.{append_assoc}
use grafted.Base.{
  ℕ, ◌+◌, ◌^◌, ◌<◌, ◌≡◌, Bool, true, false, ◌&&◌, ◌||◌, List, [], ◌∷◌, ◌++◌, Option, none, some,
  ◌==◌, nat_eq, list_eq, leb, ltb, if◌then◌else◌, u64, length, take, drop, Bytes, arith, Bool-cases,
  inl, inr,
}
use grafted.Loader.Outcome.{Outcome}
use grafted.Loader.Format.{Segment, MachOBinary}
use grafted.Loader.Mapper.{
  ProtFlags, Os, macho_prot_to_linux, read_write, prot_none, pagezero, text_vmaddr, total_size,
  file_part, protect, fill, fixed_at, map_segment,
}

pub data Call : Type 0 where
  mapped : Option ℕ → ℕ → ProtFlags → Call
  copied : ℕ → Bytes → Call
  protected : ℕ → ℕ → ProtFlags → Call
  unmapped : ℕ → ℕ → Call

abbrev pub or_else : Option ℕ → ℕ → ℕ
or_else none free = free
or_else (some at) free = at

-- A system that writes down its calls and grants each one; what is to be mapped anywhere is mapped
-- at `free`.
abbrev pub recorder : ℕ → Os (List Call)
recorder free = record {
  mmap = λ at size prot log. (some (or_else at free), log ++ (Call.mapped at size prot ∷ []));
  copy = λ at bytes log. log ++ (Call.copied at bytes ∷ []);
  mprotect = λ at size prot log. (true, log ++ (Call.protected at size prot ∷ []));
  munmap = λ at size log. log ++ (Call.unmapped at size ∷ []);
}

-- The bytes of a segment that the file has, if it has them all.
abbrev pub has_bytes : Segment → Bytes → Bool
has_bytes seg file = ltb 0 seg.filesize && leb (seg.fileoff + seg.filesize) (length file)

abbrev pub bytes_of : Segment → Bytes → Bytes
bytes_of seg file = take seg.filesize (drop seg.fileoff file)

-- Map writable, copy, then protect as asked.
abbrev pub segment_calls : Segment → Bytes → ℕ → List Call
segment_calls seg file at =
    Call.mapped (some at) seg.vmsize read_write
    ∷ (if has_bytes seg file
        then Call.copied at (bytes_of seg file)
          ∷ Call.protected at seg.vmsize (macho_prot_to_linux seg.initprot)
          ∷ []
        else Call.protected at seg.vmsize (macho_prot_to_linux seg.initprot) ∷ [])

abbrev pub all_calls : List Segment → Bytes → ℕ → List Call
all_calls [] file slide = []
all_calls (seg ∷ segs) file slide =
    let rest = all_calls segs file slide in
    if (Segment.name seg == pagezero) || (seg.vmsize == 0)
    then rest
    else segment_calls seg file (seg.vmaddr + slide) ++ rest

-- Addresses and offsets do not wrap, and no segment is mapped at 0.
abbrev pub IsMappable : Segment → ℕ → Type 0
IsMappable seg slide =
    (0 < seg.vmaddr + slide) × (seg.vmaddr + slide < 2 ^ 64) × (seg.fileoff + seg.filesize < 2 ^ 64)

abbrev pub AreMappable : List Segment → ℕ → Type 0
AreMappable [] slide = Unit {0}
AreMappable (seg ∷ segs) slide =
    (((Segment.name seg == pagezero) ≡ false) → IsMappable seg slide) × AreMappable segs slide

pub file_part-has_bytes :
    (seg : Segment) (file : Bytes)
    → seg.fileoff + seg.filesize < 2 ^ 64
    → file_part seg file
      ≡ Outcome.ok (if has_bytes seg file then some (bytes_of seg file) else none)
file_part-has_bytes seg file h = ground arith

pub fixed_at-u64 : (at : ℕ) → 0 < at → at < 2 ^ 64 → fixed_at (u64 at) ≡ some at
fixed_at-u64 at pos small = ground arith

module _ (free : ℕ) where
  pub map_segment-calls :
      (seg : Segment) (file : Bytes) (slide : ℕ) (log : List Call)
      → IsMappable seg slide
      → (seg.vmsize == 0) ≡ false
      → map_segment (recorder free) seg file slide log
        ≡ (Outcome.ok tt, log ++ segment_calls seg file (seg.vmaddr + slide))
  unfolding map_segment fill protect
  map_segment-calls seg file slide log (pos, small, in_file) sized =
      let at = seg.vmaddr + slide in
      elim (Bool-cases (has_bytes seg file)) [
        | inl h ↦ ground (
          arith,
          fixed_at-u64 at pos small,
          file_part-has_bytes seg file in_file,
          append_assoc (log ++ (Call.mapped (some at) seg.vmsize read_write ∷ []))
              (Call.copied at (bytes_of seg file) ∷ [])
              (Call.protected at seg.vmsize (macho_prot_to_linux seg.initprot) ∷ []),
          append_assoc log (Call.mapped (some at) seg.vmsize read_write ∷ []) (
              Call.copied at (bytes_of seg file)
              ∷ Call.protected at seg.vmsize (macho_prot_to_linux seg.initprot)
              ∷ []),
        )
        | inr h ↦ ground (
          arith,
          fixed_at-u64 at pos small,
          file_part-has_bytes seg file in_file,
          append_assoc log (Call.mapped (some at) seg.vmsize read_write ∷ [])
              (Call.protected at seg.vmsize (macho_prot_to_linux seg.initprot) ∷ []),
        )
      ]

  abbrev pub slide_of : MachOBinary → ℕ
  slide_of b = if text_vmaddr b.segments == 0 then free else 0

  -- A dylib's free region is found by mapping it whole and unmapping it again.
  abbrev pub region_calls : MachOBinary → List Call
  region_calls b =
      if text_vmaddr b.segments == 0
      then Call.mapped none (total_size b.segments) prot_none
        ∷ Call.unmapped free (total_size b.segments)
        ∷ []
      else []
