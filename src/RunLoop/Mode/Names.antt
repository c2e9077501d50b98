-- ===== src/RunLoop/Mode/Names.antt =====
-- Which name a mode pointer gives.
use grafted.Base.{
  ℕ, zero, suc, ◌+◌, ◌≤◌, ◌<◌, ◌≡◌, ◌≢◌, refl, true, [], ◌∷◌, Option, none, some, arith, nat_eq,
  length,
}
use grafted.RunLoop.Mode.{
  ModeName, ModePtr, default_mode, is_printable, scan, or_default, mode_name_from_ptr,
}

abbrev pub AllPrintable : ModeName → Type 0
AllPrintable [] = Unit {0}
AllPrintable (b ∷ bs) = (is_printable b ≡ true) × AllPrintable bs

-- The bytes from offset `n` on are the name and then a NUL.
abbrev pub IsAt : (ℕ → ℕ) → ℕ → ModeName → Type 0
IsAt p n [] = p n ≡ 0
IsAt p n (b ∷ bs) = (p n ≡ b) × IsAt p (n + 1) bs

scan_name :
    (left n : ℕ) (p : ℕ → ℕ) (name : ModeName)
    → length name < left
    → AllPrintable name
    → IsAt p n name
    → scan left p n ≡ some name
unfolding scan is_printable
scan_name zero n p name h a i = absurd (omega arith)
scan_name (suc left) n p [] h a i = ground arith
scan_name (suc left) n p (b ∷ bs) h a i =
    ground (arith, scan_name left (n + 1) p bs (omega arith) a.1 i.1)

scan-AllPrintable :
    (left n : ℕ) (p : ℕ → ℕ) (name : ModeName) → scan left p n ≡ some name → AllPrintable name
unfolding scan
scan-AllPrintable zero n p [] e = tt
scan-AllPrintable zero n p (b ∷ bs) e = cc
scan-AllPrintable (suc left) n p [] e = tt
scan-AllPrintable (suc left) n p (b ∷ bs) e = ground (arith, scan-AllPrintable left (n + 1) p bs)

-- A NUL-terminated printable name of 1 to 63 bytes is read back as it is.
pub mode_name_from_ptr_reads :
    (p : ℕ → ℕ) (name : ModeName)
    → name ≢ []
    → length name < 64
    → AllPrintable name
    → IsAt p 0 name
    → mode_name_from_ptr (some p) ≡ name
unfolding mode_name_from_ptr
mode_name_from_ptr_reads p [] ne h a i = absurd (ne refl)
mode_name_from_ptr_reads p (b ∷ bs) ne h a i = rw (scan_name 64 0 p (b ∷ bs) h a i)

default_mode-AllPrintable : AllPrintable default_mode
unfolding is_printable
default_mode-AllPrintable = ground arith

scan-length :
    (left n : ℕ) (p : ℕ → ℕ) (name : ModeName) → scan left p n ≡ some name → length name ≤ left
unfolding scan
scan-length zero n p [] e = omega arith
scan-length zero n p (b ∷ bs) e = cc
scan-length (suc left) n p [] e = omega arith
scan-length (suc left) n p (b ∷ bs) e = ground (arith, scan-length left (n + 1) p bs)

abbrev IsName : ModeName → Type 0
IsName name = (name ≢ []) × AllPrintable name × (length name ≤ 64)

default_mode-IsName : IsName default_mode
default_mode-IsName = ((λ e. cc), default_mode-AllPrintable, omega arith)

or_default-IsName :
    (o : Option ModeName)
    → ((name : ModeName) → o ≡ some name → AllPrintable name × (length name ≤ 64))
    → IsName (or_default o)
or_default-IsName none h = default_mode-IsName
or_default-IsName (some []) h = default_mode-IsName
or_default-IsName (some (b ∷ bs)) h = ((λ e. cc), (h (b ∷ bs) refl).0, (h (b ∷ bs) refl).1)

-- Whatever stands behind the pointer, the name is not empty, has at most 64 bytes, and all of them
-- are printable.
pub mode_name_from_ptr_printable :
    (ptr : ModePtr)
    → (mode_name_from_ptr ptr ≢ [])
      × AllPrintable (mode_name_from_ptr ptr)
      × (length (mode_name_from_ptr ptr) ≤ 64)
unfolding mode_name_from_ptr
mode_name_from_ptr_printable none = default_mode-IsName
mode_name_from_ptr_printable (some p) =
    or_default-IsName (scan 64 p 0)
      λ name e. (scan-AllPrintable 64 0 p name e, scan-length 64 0 p name e)
