-- ===== src/Dyld/Linker/Init.antt =====
-- crates/grafted-dyld/src/linker.rs: `run_initializers`.
-- What goblin reads in the file is an argument, `none` if it cannot parse it. The call of a function
-- and the reading of a pointer are parameters, on a state that the functions may change.
pub mod Laws
use grafted.Base.{
  ℕ, zero, suc, ◌+◌, ◌*◌, ◌/◌, Bool, true, false, List, [], ◌∷◌, Option, none, some, ◌==◌, nat_eq,
  list_eq, if◌then◌else◌, Bytes, codes,
}
use grafted.Loader.Format.{Section}

-- The init addresses of the LC_ROUTINES_64 commands, and the sections, segment by segment.
pub record Image : Type 0 where
  pub routines : List ℕ
  pub sections : List (List (Option Section))

module _ {S : Type 0} (call : ℕ → S → S) (read_pointer : ℕ → S → ℕ) where
  unfoldable pub call_routines : List ℕ → S → S
  call_routines [] s = s
  call_routines (init_address ∷ routines) s = call_routines routines (call init_address s)

  -- `count` functions from `start` on. Each pointer is read when its turn comes.
  unfoldable pub call_pointers : ℕ → ℕ → S → S
  call_pointers zero start s = s
  call_pointers (suc count) start s =
      call_pointers count (start + 8) (call (read_pointer start s) s)

  unfoldable pub call_sections : List (Option Section) → S → S
  call_sections [] s = s
  call_sections (none ∷ sections) s = call_sections sections s
  call_sections (some section ∷ sections) s = call_sections sections (
      if Section.section_name section == codes "__mod_init_func"
      then call_pointers (section.size / 8) section.addr s
      else s)

  unfoldable pub call_segments : List (List (Option Section)) → S → S
  call_segments [] s = s
  call_segments (segment ∷ segments) s = call_segments segments (call_sections segment s)

  -- The result says whether the file could be parsed.
  unfoldable pub run_initializers : Option Image → S → Bool × S
  run_initializers none s = (false, s)
  run_initializers (some image) s =
      (true, call_segments image.sections (call_routines image.routines s))
