-- ===== src/Loader/Outcome.antt =====
-- crates/grafted-loader/src/error.rs: how a loader function ends.
-- The texts of the errors are left out. `panicked` is a slice out of bounds, which ends the thread.
use grafted.Base.{ℕ, ◌≡◌, refl, ◌⊎◌, inl, inr}

pub data LoaderError : Type 0 where
  unsupported_cpu_type : ℕ → LoaderError
  no_text_segment : LoaderError
  parse_error : LoaderError
  mmap_error : LoaderError
  io_error : LoaderError

pub data Outcome (A : Type 0) : Type 0 where
  ok : A → Outcome A
  err : LoaderError → Outcome A
  panicked : Outcome A

-- `?`: what follows runs on a value, and an error or a panic passes through.
abbrev pub and_then : {A B : Type 0} → Outcome A → (A → Outcome B) → Outcome B
and_then (ok a) f = f a
and_then (err e) f = err e
and_then panicked f = panicked

pub Outcome-cases :
    {A : Type 0} (o : Outcome A)
    → ((a : A) × (o ≡ ok a)) ⊎ (((e : LoaderError) × (o ≡ err e)) ⊎ (o ≡ panicked))
Outcome-cases (ok a) = inl (a, refl)
Outcome-cases (err e) = inr (inl (e, refl))
Outcome-cases panicked = inr (inr refl)
