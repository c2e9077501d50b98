-- ===== src/Objc/Selectors.antt =====
-- One pointer for each selector name.
use grafted.Base.{
  ℕ, ◌≡◌, ◌≢◌, ap, some, nat_eq, list_eq, Bytes, arith, Option-cases, inl, inr, list_beq_iff, sym,
  ◌∙◌,
}
use grafted.Base.Assoc.{lookup, lookup-insert}
use grafted.Objc.Runtime.{Heap, Registries, sel_register_name}

-- No two names have the same pointer.
abbrev pub IsInjective : Registries → Type 0
IsInjective r =
    (s t : Bytes) (p : ℕ) → lookup r.selectors s ≡ some p → lookup r.selectors t ≡ some p → s ≡ t

abbrev pub IsUnused : Registries → ℕ → Type 0
IsUnused r p = (s : Bytes) → lookup r.selectors s ≢ some p

-- After a registration the name has the pointer that was returned, and other names are as before.
lookup-sel_register :
    (heap : Heap) (fresh : ℕ) (r : Registries) (name : ℕ) (s : Bytes)
    → name ≢ 0
    → (lookup (sel_register_name heap fresh r name).0.selectors (heap.to_string_lossy name)
        ≡ some (sel_register_name heap fresh r name).1)
      × ((heap.to_string_lossy name ≢ s)
          → lookup (sel_register_name heap fresh r name).0.selectors s ≡ lookup r.selectors s)
unfolding sel_register_name
lookup-sel_register heap fresh r name s real =
    let text = heap.to_string_lossy name in
    elim (Option-cases (lookup r.selectors text)) [
      | inr (p, known) ↦ ground arith
      | inl new ↦ ground (
        arith,
        lookup-insert r.selectors text text fresh,
        lookup-insert r.selectors text s fresh,
        list_beq_iff text text,
        list_beq_iff text s,
      )
    ]

sel_register-IsInjective :
    (heap : Heap) (fresh : ℕ) (r : Registries) (name : ℕ)
    → IsInjective r
    → IsUnused r fresh
    → IsInjective (sel_register_name heap fresh r name).0
unfolding sel_register_name
sel_register-IsInjective heap fresh r name injective unused s t p at_s at_t =
    let text = heap.to_string_lossy name in
    elim (Option-cases (lookup r.selectors text)) [
      | inr (q, known) ↦ ground (arith, injective s t p)
      | inl new ↦ ground (
        arith,
        lookup-insert r.selectors text s fresh,
        lookup-insert r.selectors text t fresh,
        list_beq_iff text s,
        list_beq_iff text t,
        injective s t p,
        unused s,
        unused t,
      )
    ]

sel_register-known :
    (heap : Heap) (fresh : ℕ) (r : Registries) (name p : ℕ)
    → name ≢ 0
    → lookup r.selectors (heap.to_string_lossy name) ≡ some p
    → sel_register_name heap fresh r name ≡ (r, p)
unfolding sel_register_name
sel_register-known heap fresh r name p real known = ground arith

-- Registering a name again, through any pointer to the same text, returns the same selector and
-- changes nothing; different texts get different selectors, as long as the copies of their names
-- are made at addresses that are not in use.
pub sel_register_name_canonical :
    (heap : Heap) (fresh later : ℕ) (r : Registries) (name again : ℕ)
    → name ≢ 0
    → again ≢ 0
    → IsInjective r
    → IsUnused r fresh
    → IsUnused (sel_register_name heap fresh r name).0 later
    → (heap.to_string_lossy name ≡ heap.to_string_lossy again
        → sel_register_name heap later (sel_register_name heap fresh r name).0 again
          ≡ sel_register_name heap fresh r name)
      × (heap.to_string_lossy name ≢ heap.to_string_lossy again
          → (sel_register_name heap later (sel_register_name heap fresh r name).0 again).1
            ≢ (sel_register_name heap fresh r name).1)
sel_register_name_canonical heap fresh later r name again real real_too injective unused
      unused_too =
    let r1 = (sel_register_name heap fresh r name).0 in
    let p = (sel_register_name heap fresh r name).1 in
    let r2 = (sel_register_name heap later r1 again).0 in
    let text = heap.to_string_lossy name in
    let text_too = heap.to_string_lossy again in
    (
      λ same. sel_register-known heap later r1 again p real_too (
          ap (lookup r1.selectors) (sym same)
          ∙ (lookup-sel_register heap fresh r name text real).0),
      λ differ equal. differ (
          sel_register-IsInjective heap later r1 again
            (sel_register-IsInjective heap fresh r name injective unused) unused_too text text_too p
            ((lookup-sel_register heap later r1 again text real_too).1 (λ e. differ (sym e))
              ∙ (lookup-sel_register heap fresh r name text real).0)
            ((lookup-sel_register heap later r1 again text real_too).0 ∙ ap some equal)),
    )
