-- ===== src/Dyld/Linker/Init/Laws.antt =====
-- The initializers that are called, and their order.
use grafted.Base.{
  ℕ, zero, suc, ◌+◌, ◌/◌, ◌≡◌, refl, ap, sym, ◌∙◌, true, List, [], ◌∷◌, ◌++◌, Option, none, some,
  ◌==◌, nat_eq, list_eq, if◌then◌else◌, codes, Bool-cases, inl, inr,
}
use grafted.Loader.Format.{Section}
use grafted.Dyld.Linker.Init.{
  Image, call_routines, call_pointers, call_sections, call_segments, run_initializers,
}

append_assoc : (xs ys zs : List ℕ) → (xs ++ ys) ++ zs ≡ xs ++ (ys ++ zs)
append_assoc [] ys zs = refl
append_assoc (x ∷ xs) ys zs = ap (◌∷◌ x) (append_assoc xs ys zs)

append_nil : (xs : List ℕ) → xs ++ [] ≡ xs
append_nil [] = refl
append_nil (x ∷ xs) = ap (◌∷◌ x) (append_nil xs)

-- The words of a table.
abbrev pub pointers : (ℕ → ℕ) → ℕ → ℕ → List ℕ
pointers words zero start = []
pointers words (suc count) start = words start ∷ pointers words count (start + 8)

abbrev pub of_section : (ℕ → ℕ) → Option Section → List ℕ
of_section words none = []
of_section words (some section) =
    if Section.section_name section == codes "__mod_init_func"
    then pointers words (section.size / 8) section.addr
    else []

abbrev pub of_sections : (ℕ → ℕ) → List (Option Section) → List ℕ
of_sections words [] = []
of_sections words (section ∷ sections) = of_section words section ++ of_sections words sections

abbrev pub of_segments : (ℕ → ℕ) → List (List (Option Section)) → List ℕ
of_segments words [] = []
of_segments words (segment ∷ segments) = of_sections words segment ++ of_segments words segments

-- Functions that only note that they were called, with the words in memory as they are.
module _ (words : ℕ → ℕ) where
  abbrev pub note : ℕ → List ℕ → List ℕ
  note f called = called ++ (f ∷ [])

  abbrev pub read_pointer : ℕ → List ℕ → ℕ
  read_pointer at called = words at

  noted : (f : ℕ) (called rest : List ℕ) → note f called ++ rest ≡ called ++ (f ∷ rest)
  noted f called rest = append_assoc called (f ∷ []) rest

  routines_called :
      (routines called : List ℕ)
      → call_routines note read_pointer routines called ≡ called ++ routines
  unfolding call_routines
  routines_called [] called = sym (append_nil called)
  routines_called (f ∷ routines) called =
      routines_called routines (note f called) ∙ noted f called routines

  pointers_called :
      (count start : ℕ) (called : List ℕ)
      → call_pointers note read_pointer count start called ≡ called ++ pointers words count start
  unfolding call_pointers
  pointers_called zero start called = sym (append_nil called)
  pointers_called (suc count) start called =
      pointers_called count (start + 8) (note (words start) called)
      ∙ noted (words start) called (pointers words count (start + 8))

  sections_called :
      (sections : List (Option Section)) (called : List ℕ)
      → call_sections note read_pointer sections called ≡ called ++ of_sections words sections
  unfolding call_sections
  sections_called [] called = sym (append_nil called)
  sections_called (none ∷ sections) called = sections_called sections called
  sections_called (some section ∷ sections) called =
      elim (Bool-cases (Section.section_name section == codes "__mod_init_func")) [
        | inl named ↦
            rw (named, call_sections)
              (sections_called sections
                  (call_pointers note read_pointer (section.size / 8) section.addr called)
                ∙ ap (λ (l : List ℕ). l ++ of_sections words sections)
                    (pointers_called (section.size / 8) section.addr called)
                ∙ append_assoc called (pointers words (section.size / 8) section.addr)
                    (of_sections words sections))
        | inr other ↦ rw (other, call_sections) (sections_called sections called)
      ]

  segments_called :
      (segments : List (List (Option Section))) (called : List ℕ)
      → call_segments note read_pointer segments called ≡ called ++ of_segments words segments
  unfolding call_segments
  segments_called [] called = sym (append_nil called)
  segments_called (segment ∷ segments) called =
      segments_called segments (call_sections note read_pointer segment called)
      ∙ ap (λ (l : List ℕ). l ++ of_segments words segments) (sections_called segment called)
      ∙ append_assoc called (of_sections words segment) (of_segments words segments)

  -- Of a file that can be parsed, the routines are called first, and then every word of each
  -- `__mod_init_func` section, in the order of the file, once each, where the functions that are
  -- called leave these words alone.
  pub run_initializers_calls :
      (image : Image)
      → run_initializers note read_pointer (some image) []
        ≡ (true, image.routines ++ of_segments words image.sections)
  unfolding run_initializers
  run_initializers_calls image =
      ap (λ (l : List ℕ). (true, l))
        (segments_called image.sections (call_routines note read_pointer image.routines [])
          ∙ ap (λ (l : List ℕ). l ++ of_segments words image.sections)
              (routines_called image.routines []))
