-- ===== src/AppKit/View/Hierarchy.antt =====
-- The tree of views of crates/grafted-frameworks/src/appkit/view.rs.
use grafted.Base.{
  ℕ, ◌≤◌, ◌<◌, ◌≡◌, ◌≢◌, ◌⊎◌, inl, inr, refl, ◌∙◌, sym, ap, false, ◌==◌, nat_eq, ltb, length,
  get_or, length-set, get_or-set_self, get_or-set_ne, Bool-cases, nat_beq_iff, arith,
}
use mathlib.Core.Path.{subst}
use grafted.AppKit.View.{View, Views, put_view, ns_view_add_subview, with_subview, with_superview}

module _ {V : Type 0} where
  -- A view's array has 64 places, of which the first are taken, and its bounds are as large as its
  -- frame.
  abbrev pub IsConsistent : View V → Type 0
  IsConsistent v =
      (length v.subviews ≡ 64) × (v.subview_count ≤ 64) × (v.bounds.size ≡ v.frame.size)

  -- A place of a view's array that holds another.
  abbrev pub IsListed : View V → ℕ → Type 0
  IsListed v x = (i : ℕ) × (i < v.subview_count) × (get_or v.subviews i 0 ≡ x)

  -- Every view is consistent, and is listed by its superview.
  abbrev pub IsHierarchy : Views V → Type 0
  IsHierarchy views =
      ((x : ℕ) → IsConsistent (views x))
      × ((x : ℕ) → (View.superview (views x) ≡ 0) ⊎ IsListed (views (View.superview (views x))) x)

  put_view_self : (views : Views V) (a : ℕ) (v : View V) → put_view views a v a ≡ v
  unfolding put_view
  put_view_self views a v = rw ((nat_beq_iff a a).1 refl) refl

  put_view-ne :
      (views : Views V) (a x : ℕ) (v : View V) → (a == x) ≡ false → put_view views a v x ≡ views x
  unfolding put_view
  put_view-ne views a x v h = rw h refl

  abbrev pub IsSubview : Views V → ℕ → ℕ → Type 0
  IsSubview views parent x = (parent ≡ 0) ⊎ IsListed (views parent) x

  put_view-cases :
      (P : View V → Type 0) (views : Views V) (a x : ℕ) (v : View V)
      → (a ≡ x → P v)
      → (a ≢ x → P (views x))
      → P (put_view views a v x)
  put_view-cases P views a x v here else_ = elim (Bool-cases (a == x)) [
    | inl e ↦
        let same : a ≡ x = (nat_beq_iff a x).0 e in
        subst (λ (w : ℕ). P (put_view views a v w)) same
          (subst P (sym (put_view_self views a v)) (here same))
    | inr e ↦ subst P (sym (put_view-ne views a x v e)) (else_ (λ h. ground (arith, e, h)))
  ]

  -- Who was listed still is.
  kept :
      (views : Views V) (a : ℕ) (v : View V) (x parent : ℕ)
      → ((x : ℕ) → View.superview (views x) ≡ a → (a ≡ 0) ⊎ (IsListed (views a) x → IsListed v x))
      → View.superview (views x) ≡ parent
      → IsSubview views parent x
      → IsSubview (put_view views a v) parent x
  kept views a v x parent more at (inl null) = inl null
  kept views a v x parent more at (inr l) = elim (Bool-cases (a == parent)) [
    | inl e ↦
        let same : a ≡ parent = (nat_beq_iff a parent).0 e in
        elim (more x (at ∙ sym same)) [
          | inl null ↦ inl (sym same ∙ null)
          | inr f ↦ inr (
              subst (λ (u : View V). IsListed u x)
                (sym (put_view_self views a v) ∙ ap (put_view views a v) same)
                (f (subst (λ (w : ℕ). IsListed (views w) x) (sym same) l)))
        ]
    | inr e ↦ inr (subst (λ (u : View V). IsListed u x) (sym (put_view-ne views a parent v e)) l)
  ]

  -- A view is replaced by one that lists at least its subviews, and that its superview lists.
  pub replaced :
      (views : Views V) (a : ℕ) (v : View V)
      → IsHierarchy views
      → IsConsistent v
      → IsSubview (put_view views a v) v.superview a
      → ((x : ℕ) → View.superview (views x) ≡ a → (a ≡ 0) ⊎ (IsListed (views a) x → IsListed v x))
      → IsHierarchy (put_view views a v)
  replaced views a v (each, listed) ok own more = (
    λ x. put_view-cases IsConsistent views a x v (λ e. ok) (λ e. each x),
    λ x.
        put_view-cases (λ u. IsSubview (put_view views a v) u.superview x) views a x v
          (λ e. subst (λ (x : ℕ). IsSubview (put_view views a v) v.superview x) e own)
          (λ e. kept views a v x (View.superview (views x)) more refl (listed x)),
  )

  -- The same for a view whose superview and subviews stay.
  pub refreshed :
      (views : Views V) (a : ℕ) (v : View V)
      → IsHierarchy views
      → v.superview ≡ View.superview (views a)
      → v.subviews ≡ View.subviews (views a)
      → v.subview_count ≡ View.subview_count (views a)
      → v.bounds.size ≡ v.frame.size
      → IsHierarchy (put_view views a v)
  refreshed views a v (each, listed) up down many size =
      let more : (x : ℕ)
          → View.superview (views x) ≡ a
          → (a ≡ 0) ⊎ (IsListed (views a) x → IsListed v x) =
        λ x at. inr (λ l. (l.0, omega (arith, l.1, many), ap (λ s. get_or s l.0 0) down ∙ l.2)) in
      let (len, few, same) = each a in
      replaced views a v (each, listed) (ap length down ∙ len, omega (arith, few, many), size)
        (subst (λ (s : ℕ). IsSubview (put_view views a v) s a) (sym up)
          (kept views a v a (View.superview (views a)) more refl (listed a)))
        more

  IsListed-at_end :
      (v : View V) (s : ℕ)
      → length v.subviews ≡ 64
      → v.subview_count < 64
      → IsListed (with_subview v s) s
  IsListed-at_end v s len room = (
    v.subview_count,
    omega arith,
    get_or-set_self v.subviews v.subview_count s 0 (omega (arith, len, room)),
  )

  with_subview-IsListed : (v : View V) (s x : ℕ) → IsListed v x → IsListed (with_subview v s) x
  with_subview-IsListed v s x (i, lt, at) = (
    i,
    omega (arith, lt),
    get_or-set_ne v.subviews v.subview_count i s 0 (λ e. omega (arith, lt, e)) ∙ at,
  )

  added-IsHierarchy :
      (views : Views V) (self sub : ℕ)
      → IsHierarchy views
      → View.subview_count (views self) < 64
      → IsHierarchy (put_view views self (with_subview (views self) sub))
  added-IsHierarchy views self sub (each, listed) room =
      let v : View V = views self in
      let more : (x : ℕ)
          → View.superview (views x) ≡ self
          → (self ≡ 0) ⊎ (IsListed (views self) x → IsListed (with_subview v sub) x) =
        λ x at. inr (with_subview-IsListed v sub x) in
      let (len, few, same) = each self in
      replaced views self (with_subview v sub) (each, listed)
        (length-set v.subviews v.subview_count sub ∙ len, omega (arith, room), same)
        (kept views self (with_subview v sub) self (View.superview v) more refl (listed self)) more

  told-IsHierarchy :
      (views : Views V) (self sub : ℕ)
      → IsHierarchy views
      → IsListed (views self) sub
      → IsHierarchy (put_view views sub (with_superview (views sub) self))
  told-IsHierarchy views self sub (each, listed) there =
      replaced views sub (with_superview (views sub) self) (each, listed) (each sub)
        (inr (
          put_view-cases (λ u. IsListed u sub) views sub self (with_superview (views sub) self)
            (λ e. subst (λ (w : ℕ). IsListed (views w) sub) (sym e) there) (λ ne. there)))
        (λ x at. inr (λ l. l))

  -- A subview is added at the end of the array, and then told who its superview is.
  pub add_subview-IsHierarchy :
      (views : Views V) (self sub : ℕ)
      → IsHierarchy views
      → IsHierarchy (ns_view_add_subview views self sub)
  unfolding ns_view_add_subview
  add_subview-IsHierarchy views self sub tree = elim (Bool-cases (sub == 0)) [
    | inl null ↦ rw null tree
    | inr there ↦ elim (Bool-cases (ltb (View.subview_count (views self)) 64)) [
      | inr full ↦ rw (there, full) tree
      | inl room ↦
          rw (there, room)
            (told-IsHierarchy (put_view views self (with_subview (views self) sub)) self sub
              (added-IsHierarchy views self sub tree (ground (arith, room)))
              (subst (λ (u : View V). IsListed u sub)
                (sym (put_view_self views self (with_subview (views self) sub)))
                (IsListed-at_end (views self) sub (tree.0 self).0 (ground (arith, room)))))
    ]
  ]
