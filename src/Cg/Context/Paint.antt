-- ===== src/Cg/Context/Paint.antt =====
-- Which pixels the loops of crates/grafted-frameworks/src/cg/context.rs paint.
use grafted.Base.{
  ℕ, zero, suc, ◌+◌, ◌*◌, ◌^◌, ◌≤◌, ◌<◌, ◌≡◌, ◌≢◌, ◌⊎◌, inl, inr, refl, ◌∙◌, ap, Bool, true, false,
  ◌&&◌, ◌||◌, [], ◌∷◌, Option, some, ◌==◌, nat_eq, ltb, leb, if◌then◌else◌, length, get_or, set,
  length-set, Bool-cases, arith, Bytes,
}
use native.Mathlib.Nat.{mul-le-mul_right}
use grafted.Cg.Context.{Pixel, store, and_then, pixel_offset, set_pixel}

abbrev pub component : Pixel → ℕ → ℕ
component p zero = p.b
component p (suc zero) = p.g
component p (suc (suc zero)) = p.r
component p (suc (suc (suc k))) = p.a

-- The four bytes of a pixel are written one after the other.
abbrev pub written : Pixel → ℕ → Bytes → Bytes
written p off ps = set (set (set (set ps off p.b) (off + 1) p.g) (off + 2) p.r) (off + 3) p.a

length-written : (p : Pixel) (off : ℕ) (ps : Bytes) → length (written p off ps) ≡ length ps
length-written p off ps = ground (
  arith,
  length-set ps off p.b,
  length-set (set ps off p.b) (off + 1) p.g,
  length-set (set (set ps off p.b) (off + 1) p.g) (off + 2) p.r,
  length-set (set (set (set ps off p.b) (off + 1) p.g) (off + 2) p.r) (off + 3) p.a,
)

get_or-set :
    (ps : Bytes) (i j v : ℕ)
    → i < length ps
    → get_or (set ps i v) j 0 ≡ (if i == j then v else get_or ps j 0)
get_or-set [] i j v h = absurd (omega arith)
get_or-set (x ∷ ps) zero zero v h = refl
get_or-set (x ∷ ps) zero (suc j) v h = ground arith
get_or-set (x ∷ ps) (suc i) zero v h = ground arith
get_or-set (x ∷ ps) (suc i) (suc j) v h = ground (arith, get_or-set ps i j v (omega arith))

get_or-written :
    (p : Pixel) (off j : ℕ) (ps : Bytes)
    → off + 3 < length ps
    → get_or (written p off ps) j 0 ≡ (
        if off + 3 == j
        then p.a
        else if off + 2 == j
        then p.r
        else if off + 1 == j
        then p.g
        else if off == j
        then p.b
        else get_or ps j 0)
get_or-written p off j ps h =
    let s1 = set ps off p.b in
    let s2 = set s1 (off + 1) p.g in
    let s3 = set s2 (off + 2) p.r in
    let l1 : length s1 ≡ length ps = length-set ps off p.b in
    let l2 : length s2 ≡ length ps = length-set s1 (off + 1) p.g ∙ l1 in
    let l3 : length s3 ≡ length ps = length-set s2 (off + 2) p.r ∙ l2 in
    rw
      (
        get_or-set s3 (off + 3) j p.a (omega (arith, h, l3)),
        get_or-set s2 (off + 2) j p.r (omega (arith, h, l2)),
        get_or-set s1 (off + 1) j p.g (omega (arith, h, l1)),
        get_or-set ps off j p.b (omega (arith, h)),
      )
      refl

get_or-written_self :
    (p : Pixel) (off k : ℕ) (ps : Bytes)
    → off + 3 < length ps
    → k < 4
    → get_or (written p off ps) (off + k) 0 ≡ component p k
get_or-written_self p off zero ps h hk = ground (arith, get_or-written p off (off + 0) ps h)
get_or-written_self p off (suc zero) ps h hk = ground (arith, get_or-written p off (off + 1) ps h)
get_or-written_self p off (suc (suc zero)) ps h hk =
    ground (arith, get_or-written p off (off + 2) ps h)
get_or-written_self p off (suc (suc (suc k))) ps h hk =
    ground (arith, hk, get_or-written p off (off + suc (suc (suc k))) ps h)

get_or-written_apart :
    (p : Pixel) (off j : ℕ) (ps : Bytes)
    → off + 3 < length ps
    → (j < off) ⊎ (off + 4 ≤ j)
    → get_or (written p off ps) j 0 ≡ get_or ps j 0
get_or-written_apart p off j ps h (inl lo) = ground (arith, lo, get_or-written p off j ps h)
get_or-written_apart p off j ps h (inr hi) = ground (arith, hi, get_or-written p off j ps h)

below : (a b : ℕ) → a < b → ltb a b ≡ true
below a b h = ground arith

-- The four writes are within bounds.
stores :
    (p : Pixel) (off : ℕ) (ps : Bytes)
    → off + 3 < length ps
    → and_then (store off p.b ps) (λ ps.
      and_then
        (store (off + 1) p.g ps)
        (λ ps. and_then (store (off + 2) p.r ps) (store (off + 3) p.a)))
      ≡ some (written p off ps)
stores p off ps h =
    let s1 = set ps off p.b in
    let s2 = set s1 (off + 1) p.g in
    let s3 = set s2 (off + 2) p.r in
    let l1 : length s1 ≡ length ps = length-set ps off p.b in
    let l2 : length s2 ≡ length ps = length-set s1 (off + 1) p.g ∙ l1 in
    let l3 : length s3 ≡ length ps = length-set s2 (off + 2) p.r ∙ l2 in
    rw
      (
        below off (length ps) (omega (arith, h)),
        below (off + 1) (length s1) (omega (arith, h, l1)),
        below (off + 2) (length s2) (omega (arith, h, l2)),
        below (off + 3) (length s3) (omega (arith, h, l3)),
      )
      refl

module _ (width height stride : ℕ) where
  -- The rows of `n` bytes are at least as wide as their pixels.
  abbrev pub IsBitmap : ℕ → Type 0
  IsBitmap n = (width * 4 ≤ stride) × (stride * height ≡ n) × (n < 2 ^ 64)

  abbrev pub byte : Bytes → ℕ → ℕ → ℕ → ℕ
  byte ps x y k = get_or ps (y * stride + x * 4 + k) 0

  -- A place that no byte of the pixels of a set is at: of another pixel, behind a row or beyond.
  abbrev pub IsBeside : (ℕ → ℕ → Bool) → ℕ → Type 0
  IsBeside inside j =
      (x y k : ℕ) → x < width → y < height → k < 4 → inside x y ≡ true → j ≢ y * stride + x * 4 + k

  -- A loop body gives exactly the pixels of a set the color.
  abbrev pub IsPainting : ℕ → Pixel → (Bytes → Option Bytes) → (ℕ → ℕ → Bool) → Type 0
  IsPainting n p f inside =
      (ps : Bytes)
      → length ps ≡ n
      → (ps1 : Bytes) × (f ps ≡ some ps1)
        × (length ps1 ≡ n)
        × ((x y k : ℕ)
            → x < width
            → y < height
            → k < 4
            → byte ps1 x y k ≡ (if inside x y then component p k else byte ps x y k))
        × ((j : ℕ) → IsBeside inside j → get_or ps1 j 0 ≡ get_or ps j 0)

  row : (n y : ℕ) → IsBitmap n → y < height → y * stride + stride ≤ n
  row n y (wide, all, fits) h = omega (arith, mul-le-mul_right stride h, all)

  rows : (y y1 : ℕ) → y < y1 → y * stride + stride ≤ y1 * stride
  rows y y1 h = omega (arith, mul-le-mul_right stride h)

  set_pixel_inside :
      (n x y : ℕ) (p : Pixel) (ps : Bytes)
      → IsBitmap n
      → length ps ≡ n
      → x < width
      → y < height
      → set_pixel width height stride x y p ps ≡ some (written p (y * stride + x * 4) ps)
  unfolding set_pixel
  set_pixel_inside n x y p ps (wide, all, fits) len hx hy =
      let at = row n y (wide, all, fits) hy in
      let off : pixel_offset width height stride x y ≡ y * stride + x * 4 =
        omega (arith, at, wide, hx, fits) in
      rw off (
        ground (
          arith,
          stores p (y * stride + x * 4) ps (omega (arith, at, wide, hx, len)),
          at,
          wide,
          hx,
          hy,
          len,
          fits,
        ))

  apart :
      (x y x1 y1 k : ℕ)
      → width * 4 ≤ stride
      → x < width
      → x1 < width
      → k < 4
      → ((x == x1) && (y == y1)) ≡ false
      → (y1 * stride + x1 * 4 + k < y * stride + x * 4)
        ⊎ (y * stride + x * 4 + 4 ≤ y1 * stride + x1 * 4 + k)
  apart x y x1 y1 k wide hx hx1 hk ne = elim (Bool-cases (ltb y y1)) [
    | inl lt ↦ inr (omega (arith, rows y y1 (ground (arith, lt)), wide, hx))
    | inr ge ↦ elim (Bool-cases (ltb y1 y)) [
      | inl lt ↦ inl (omega (arith, rows y1 y (ground (arith, lt)), wide, hx1, hk))
      | inr le ↦
          let same : y ≡ y1 = ground (arith, ge, le) in
          elim (Bool-cases (ltb x x1)) [
            | inl lt ↦ inr (ground (arith, lt, ap (λ y. y * stride) same))
            | inr gt ↦ inl (ground (arith, gt, ne, same, ap (λ y. y * stride) same))
          ]
    ]
  ]

  moved : (x y x1 y1 k : ℕ) → x1 ≡ x → y1 ≡ y → y1 * stride + x1 * 4 + k ≡ y * stride + x * 4 + k
  moved x y x1 y1 k ex ey = omega (arith, ex, ap (λ y. y * stride) ey)

  byte-written :
      (n x y x1 y1 k : ℕ) (p : Pixel) (ps : Bytes)
      → IsBitmap n
      → length ps ≡ n
      → x < width
      → y < height
      → x1 < width
      → y1 < height
      → k < 4
      → byte (written p (y * stride + x * 4) ps) x1 y1 k
        ≡ (if (x == x1) && (y == y1) then component p k else byte ps x1 y1 k)
  byte-written n x y x1 y1 k p ps (wide, all, fits) len hx hy hx1 hy1 hk =
      let off : ℕ = y * stride + x * 4 in
      let inside : off + 3 < length ps =
        omega (arith, row n y (wide, all, fits) hy, wide, hx, len) in
      elim (Bool-cases ((x == x1) && (y == y1))) [
        | inl e ↦
            let ex : x1 ≡ x = ground (arith, e) in
            let ey : y1 ≡ y = ground (arith, e) in
            rw e (
              ap (λ i. get_or (written p off ps) i 0) (moved x y x1 y1 k ex ey)
              ∙ get_or-written_self p off k ps inside hk)
        | inr e ↦ rw e (
            get_or-written_apart p off (y1 * stride + x1 * 4 + k) ps inside
              (apart x y x1 y1 k wide hx hx1 hk e))
      ]

  beside_pixel :
      (n x y j : ℕ) (p : Pixel) (ps : Bytes)
      → IsBitmap n
      → length ps ≡ n
      → x < width
      → y < height
      → ((k : ℕ) → k < 4 → j ≢ y * stride + x * 4 + k)
      → get_or (written p (y * stride + x * 4) ps) j 0 ≡ get_or ps j 0
  beside_pixel n x y j p ps (wide, all, fits) len hx hy away =
      get_or-written_apart p (y * stride + x * 4) j ps
        (omega (arith, row n y (wide, all, fits) hy, wide, hx, len))
        (ground (
          arith,
          away 0 (omega arith),
          away 1 (omega arith),
          away 2 (omega arith),
          away 3 (omega arith),
        ))

  pub set_pixel-IsPainting :
      (n x y : ℕ) (p : Pixel)
      → IsBitmap n
      → IsPainting n p (set_pixel width height stride x y p) (λ x1 y1. (x == x1) && (y == y1))
  unfolding set_pixel
  set_pixel-IsPainting n x y p bitmap ps len = elim (Bool-cases (leb width x || leb height y)) [
    | inl out ↦ (ps, rw out refl, len, (λ x1 y1 k hx hy hk. ground (arith, out)), λ j beside. refl)
    | inr in_ ↦ (
      written p (y * stride + x * 4) ps,
      set_pixel_inside n x y p ps bitmap len (ground (arith, in_)) (ground (arith, in_)),
      length-written p (y * stride + x * 4) ps ∙ len,
      (λ x1 y1 k hx hy hk.
          byte-written n x y x1 y1 k p ps bitmap len (ground (arith, in_)) (ground (arith, in_)) hx
            hy hk),
      λ j beside.
          beside_pixel n x y j p ps bitmap len (ground (arith, in_)) (ground (arith, in_))
            (λ k hk. beside x y k (ground (arith, in_)) (ground (arith, in_)) hk (ground arith)),
    )
  ]
