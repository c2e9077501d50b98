-- ===== src/Cg/Context/Loops.antt =====
-- What the loops of crates/grafted-frameworks/src/cg/context.rs paint: the union of what their bodies
-- paint.
use grafted.Base.{
  ℕ, zero, suc, ◌+◌, ◌-◌, ◌≡◌, refl, sym, ◌∙◌, Bool, true, false, ◌&&◌, ◌||◌, List, [], ◌∷◌, Option,
  ◌==◌, nat_eq, ltb, leb, arith, Bytes,
}
use grafted.Cg.Context.{
  Pixel, and_then, range_of, range, range_inclusive, for_each, set_pixel, fill_loop, stroke_loop,
}
use grafted.Cg.Context.Paint.{IsBitmap, IsPainting, set_pixel-IsPainting}

abbrev pub any : List ℕ → (ℕ → Bool) → Bool
any [] q = false
any (i ∷ is) q = any is q || q i

any-range_of :
    (n from x : ℕ) (q : Bool)
    → any (range_of from n) (λ i. (i == x) && q) ≡ ((leb from x && ltb x (from + n)) && q)
any-range_of zero from x q = ground arith
any-range_of (suc n) from x q = ground (arith, any-range_of n (suc from) x q)

any-range :
    (from to x : ℕ) (q : Bool)
    → any (range from to) (λ i. (i == x) && q) ≡ ((leb from x && ltb x to) && q)
any-range from to x q = ground (arith, any-range_of (to - from) from x q)

and_comm : (a b : Bool) → (a && b) ≡ (b && a)
and_comm a b = ground arith

any-ext : (is : List ℕ) (q r : ℕ → Bool) → ((i : ℕ) → q i ≡ r i) → any is q ≡ any is r
any-ext [] q r same = refl
any-ext (i ∷ is) q r same = ground (arith, any-ext is q r same, same i)

abbrev pub in_rect : (x0 y0 x1 y1 x y : ℕ) → Bool
in_rect x0 y0 x1 y1 x y = (leb x0 x && ltb x x1) && (leb y0 y && ltb y y1)

-- The two rows and the two columns of a frame.
abbrev pub on_frame : (x0 y0 x1 y1 x y : ℕ) → Bool
on_frame x0 y0 x1 y1 x y =
    ((leb x0 x && leb x x1) && ((y == y0) || (y == y1)))
    || ((leb y0 y && leb y y1) && ((x == x0) || (x == x1)))

or_left : (a b : Bool) → a ≡ true → (a || b) ≡ true
or_left a b h = ground (arith, h)

or_right : (a b : Bool) → b ≡ true → (a || b) ≡ true
or_right a b h = ground (arith, h)

module _ (width height stride n : ℕ) (p : Pixel) where
  abbrev Paints : (Bytes → Option Bytes) → (ℕ → ℕ → Bool) → Type 0
  Paints = IsPainting width height stride n p

  and_then-Paints :
      (f g : Bytes → Option Bytes) (inf ing : ℕ → ℕ → Bool)
      → Paints f inf
      → Paints g ing
      → Paints (λ ps. and_then (f ps) g) (λ x y. ing x y || inf x y)
  and_then-Paints f g inf ing pf pg ps len =
      let (ps1, e1, l1, b1, r1) = pf ps len in
      let (ps2, e2, l2, b2, r2) = pg ps1 l1 in
      (
        ps2,
        rw e1 e2,
        l2,
        (λ x y k hx hy hk. ground (arith, b1 x y k hx hy hk, b2 x y k hx hy hk)),
        λ j beside.
            r2 j (λ x y k hx hy hk h. beside x y k hx hy hk (or_left (ing x y) (inf x y) h))
            ∙ r1 j (λ x y k hx hy hk h. beside x y k hx hy hk (or_right (ing x y) (inf x y) h)),
      )

  for_each-Paints :
      (is : List ℕ) (body : ℕ → Bytes → Option Bytes) (inside : ℕ → ℕ → ℕ → Bool)
      → ((i : ℕ) → Paints (body i) (inside i))
      → Paints (for_each is body) (λ x y. any is (λ i. inside i x y))
  unfolding for_each
  for_each-Paints [] body inside each ps len =
      (ps, refl, len, (λ x y k hx hy hk. refl), λ j beside. refl)
  for_each-Paints (i ∷ is) body inside each ps len =
      and_then-Paints (body i) (for_each is body) (inside i) (λ x y. any is (λ i. inside i x y))
        (each i) (for_each-Paints is body inside each) ps len

  Paints-ext :
      (f : Bytes → Option Bytes) (q r : ℕ → ℕ → Bool)
      → ((x y : ℕ) → q x y ≡ r x y)
      → Paints f q
      → Paints f r
  Paints-ext f q r same pf ps len =
      let (ps1, e1, l1, b1, r1) = pf ps len in
      (
        ps1,
        e1,
        l1,
        (λ x y k hx hy hk. ground (arith, b1 x y k hx hy hk, same x y)),
        λ j beside. r1 j (λ x y k hx hy hk h. beside x y k hx hy hk (sym (same x y) ∙ h)),
      )

  inside_loops :
      (x0 y0 x1 y1 x y : ℕ)
      → any (range y0 y1) (λ j. any (range x0 x1) (λ i. (i == x) && (j == y)))
        ≡ in_rect x0 y0 x1 y1 x y
  inside_loops x0 y0 x1 y1 x y =
      any-ext (range y0 y1) (λ j. any (range x0 x1) (λ i. (i == x) && (j == y)))
        (λ j. (j == y) && (leb x0 x && ltb x x1))
        (λ j. any-range x0 x1 x (j == y) ∙ and_comm (leb x0 x && ltb x x1) (j == y))
      ∙ any-range y0 y1 y (leb x0 x && ltb x x1)
      ∙ and_comm (leb y0 y && ltb y y1) (leb x0 x && ltb x x1)

  pub fill_loop-Paints :
      (x0 y0 x1 y1 : ℕ)
      → IsBitmap width height stride n
      → Paints (fill_loop width height stride x0 y0 x1 y1 p) (in_rect x0 y0 x1 y1)
  unfolding fill_loop
  fill_loop-Paints x0 y0 x1 y1 bitmap =
      Paints-ext (fill_loop width height stride x0 y0 x1 y1 p)
        (λ x y. any (range y0 y1) (λ j. any (range x0 x1) (λ i. (i == x) && (j == y))))
        (in_rect x0 y0 x1 y1) (inside_loops x0 y0 x1 y1)
        (for_each-Paints (range y0 y1)
          (λ j. for_each (range x0 x1) (λ i. set_pixel width height stride i j p))
          (λ j x y. any (range x0 x1) (λ i. (i == x) && (j == y)))
          (λ j.
            for_each-Paints (range x0 x1) (λ i. set_pixel width height stride i j p)
              (λ i x y. (i == x) && (j == y))
              (λ i. set_pixel-IsPainting width height stride n i j p bitmap)))

any-range_inclusive :
    (from to x : ℕ) (q : Bool)
    → any (range_inclusive from to) (λ i. (i == x) && q) ≡ ((leb from x && leb x to) && q)
any-range_inclusive from to x q = ground (arith, any-range_of (to + 1 - from) from x q)

any_row :
    (x0 x1 y0 y1 x y : ℕ)
    → any (range_inclusive x0 x1) (λ i. ((i == x) && (y1 == y)) || ((i == x) && (y0 == y)))
      ≡ ((leb x0 x && leb x x1) && ((y1 == y) || (y0 == y)))
any_row x0 x1 y0 y1 x y =
    any-ext (range_inclusive x0 x1) (λ i. ((i == x) && (y1 == y)) || ((i == x) && (y0 == y)))
      (λ i. (i == x) && ((y1 == y) || (y0 == y))) (λ i. ground arith)
    ∙ any-range_inclusive x0 x1 x ((y1 == y) || (y0 == y))

any_column :
    (y0 y1 x0 x1 x y : ℕ)
    → any (range_inclusive y0 y1) (λ j. ((x1 == x) && (j == y)) || ((x0 == x) && (j == y)))
      ≡ ((leb y0 y && leb y y1) && ((x1 == x) || (x0 == x)))
any_column y0 y1 x0 x1 x y =
    any-ext (range_inclusive y0 y1) (λ j. ((x1 == x) && (j == y)) || ((x0 == x) && (j == y)))
      (λ j. (j == y) && ((x1 == x) || (x0 == x))) (λ j. ground arith)
    ∙ any-range_inclusive y0 y1 y ((x1 == x) || (x0 == x))

module _ (width height stride n : ℕ) (p : Pixel) (bitmap : IsBitmap width height stride n) where
  abbrev draw : ℕ → ℕ → Bytes → Option Bytes
  draw i j = set_pixel width height stride i j p

  abbrev at : (i j x y : ℕ) → Bool
  at i j x y = (i == x) && (j == y)

  drawn :
      (i j k l : ℕ)
      → IsPainting width height stride n p
          (λ ps. and_then (draw i j ps) (draw k l))
          (λ x y. at k l x y || at i j x y)
  drawn i j k l =
      and_then-Paints width height stride n p (draw i j) (draw k l) (at i j) (at k l)
        (set_pixel-IsPainting width height stride n i j p bitmap)
        (set_pixel-IsPainting width height stride n k l p bitmap)

  rows-Paints :
      (x0 y0 x1 y1 : ℕ)
      → IsPainting width height stride n p
          (for_each (range_inclusive x0 x1) (λ i ps. and_then (draw i y0 ps) (draw i y1)))
          (λ x y. any (range_inclusive x0 x1) (λ i. at i y1 x y || at i y0 x y))
  rows-Paints x0 y0 x1 y1 =
      for_each-Paints width height stride n p (range_inclusive x0 x1)
        (λ i ps. and_then (draw i y0 ps) (draw i y1)) (λ i x y. at i y1 x y || at i y0 x y)
        (λ i. drawn i y0 i y1)

  columns-Paints :
      (x0 y0 x1 y1 : ℕ)
      → IsPainting width height stride n p
          (for_each (range_inclusive y0 y1) (λ j ps. and_then (draw x0 j ps) (draw x1 j)))
          (λ x y. any (range_inclusive y0 y1) (λ j. at x1 j x y || at x0 j x y))
  columns-Paints x0 y0 x1 y1 =
      for_each-Paints width height stride n p (range_inclusive y0 y1)
        (λ j ps. and_then (draw x0 j ps) (draw x1 j)) (λ j x y. at x1 j x y || at x0 j x y)
        (λ j. drawn x0 j x1 j)

  pub stroke_loop-Paints :
      (x0 y0 x1 y1 : ℕ)
      → IsPainting width height stride n p
          (stroke_loop width height stride x0 y0 x1 y1 p)
          (on_frame x0 y0 x1 y1)
  unfolding stroke_loop
  stroke_loop-Paints x0 y0 x1 y1 =
      Paints-ext width height stride n p (stroke_loop width height stride x0 y0 x1 y1 p)
        (λ x y.
          any (range_inclusive y0 y1) (λ j. at x1 j x y || at x0 j x y)
          || any (range_inclusive x0 x1) (λ i. at i y1 x y || at i y0 x y))
        (on_frame x0 y0 x1 y1)
        (λ x y. ground (arith, any_column y0 y1 x0 x1 x y, any_row x0 x1 y0 y1 x y))
        (and_then-Paints width height stride n p
          (for_each (range_inclusive x0 x1) (λ i ps. and_then (draw i y0 ps) (draw i y1)))
          (for_each (range_inclusive y0 y1) (λ j ps. and_then (draw x0 j ps) (draw x1 j)))
          (λ x y. any (range_inclusive x0 x1) (λ i. at i y1 x y || at i y0 x y))
          (λ x y. any (range_inclusive y0 y1) (λ j. at x1 j x y || at x0 j x y))
          (rows-Paints x0 y0 x1 y1) (columns-Paints x0 y0 x1 y1))
