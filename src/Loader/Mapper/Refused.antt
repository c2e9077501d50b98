-- ===== src/Loader/Mapper/Refused.antt =====
-- Mapping a binary on a system that refuses: which calls are made up to the one that fails.
use grafted.Base.{
  ℕ, ◌+◌, ◌-◌, Bool, true, false, List, [], ◌∷◌, ◌++◌, none, some, ◌==◌, nat_eq, list_eq, leb,
  if◌then◌else◌, Bytes,
}
use grafted.Loader.Outcome.{Outcome, LoaderError}
use grafted.Loader.Format.{Segment, MachOBinary}
use grafted.Loader.Mapper.{Os, map_segments}
use grafted.Loader.Mapper.Calls.{Call, or_else, all_calls, region_calls, slide_of}

-- A system that grants so many mappings and protections, and refuses the next one. It writes down
-- all calls, also the one that it refuses.
abbrev pub asked : Call → ℕ × List Call → ℕ × List Call
asked c (k, log) = (k - 1, log ++ (c ∷ []))

abbrev pub limited : ℕ → Os (ℕ × List Call)
limited free = record {
  mmap = λ at size prot w.
      (if w.0 == 0 then none else some (or_else at free), asked (Call.mapped at size prot) w);
  copy = λ at bytes w. (w.0, w.1 ++ (Call.copied at bytes ∷ []));
  mprotect =
      λ at size prot w. (if w.0 == 0 then false else true, asked (Call.protected at size prot) w);
  munmap = λ at size w. (w.0, w.1 ++ (Call.unmapped at size ∷ []));
}

-- The calls that can be refused, and how many of them there are.
abbrev pub is_request : Call → Bool
is_request (Call.mapped at size prot) = true
is_request (Call.copied at bytes) = false
is_request (Call.protected at size prot) = true
is_request (Call.unmapped at size) = false

abbrev pub requests : List Call → ℕ
requests [] = 0
requests (c ∷ calls) = let n = requests calls in if is_request c then n + 1 else n

-- The calls up to the first that is refused, when `k` are granted.
abbrev pub until : ℕ → List Call → List Call
until k [] = []
until k (c ∷ calls) =
    if is_request c then (if k == 0 then c ∷ [] else c ∷ until (k - 1) calls) else c ∷ until k calls

-- What such a system makes of a list of calls: all of them, or those up to the one that fails.
abbrev pub outcome : {A : Type 0} → A → ℕ → List Call → List Call → Outcome A × (ℕ × List Call)
outcome a k log calls =
    if leb (requests calls) k
    then (Outcome.ok a, (k - requests calls, log ++ calls))
    else (Outcome.err LoaderError.mmap_error, (0, log ++ until k calls))

module _ (free : ℕ) where
  -- What the loop does with the result of a segment.
  abbrev next :
      List Segment
      → Bytes
      → ℕ
      → Outcome (Unit {0}) × (ℕ × List Call)
      → Outcome (Unit {0}) × (ℕ × List Call)
  next segs file slide r = elim r.0 [
    | Outcome.ok t ↦ map_segments (limited free) segs file slide r.1
    | Outcome.err e ↦ (Outcome.err e, r.1)
    | Outcome.panicked ↦ (Outcome.panicked, r.1)
  ]

  -- For the binary's entry and slide, from the result of its segments.
  abbrev pub all_of : MachOBinary → List Call
  all_of b = region_calls free b ++ all_calls b.segments b.data_bytes (slide_of free b)
