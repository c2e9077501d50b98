-- ===== src/AppKit/Text.antt =====
-- Texts of crates/grafted-frameworks/src/appkit in arrays of a fixed size.
use grafted.Base.{
  ℕ, ◌≤◌, ◌≡◌, zero, suc, sym, ◌∙◌, ap, [], ◌∷◌, ◌++◌, min, length, take, drop, arith, Bytes,
  length-append, length-take, length-drop, take-length_append,
}

-- The array and how much of it is the text.
pub record Text : Type 0 where
  pub array : Bytes
  pub len : ℕ

-- `len = bytes.len().min(cap)` and `copy_from_slice`: the rest of the array stays.
unfoldable pub copy_text : ℕ → Text → Bytes → Text
copy_text cap t bytes =
    let len = min (length bytes) cap in
    record { array = take len bytes ++ drop len (Text.array t); len = len }

zero_min : (n : ℕ) → min n 0 ≡ 0
zero_min n = omega arith

min_zero : (n : ℕ) → min 0 (suc n) ≡ 0
min_zero n = omega arith

suc_min : (m n : ℕ) → min (suc m) (suc n) ≡ suc (min m n)
suc_min m n = omega arith

take_min : (cap : ℕ) (bs : Bytes) → take (min (length bs) cap) bs ≡ take cap bs
take_min zero bs = ap (λ n. take n bs) (zero_min (length bs))
take_min (suc cap) [] = ap (λ n. take n []) (min_zero cap)
take_min (suc cap) (b ∷ bs) =
    ap (λ n. take n (b ∷ bs)) (suc_min (length bs) cap) ∙ ap (◌∷◌ b) (take_min cap bs)

-- A text that is put into an array of `size` bytes, of which it may use `cap`, is read back cut to
-- `cap` bytes, and the array keeps its size.
pub copy_text_reads :
    (cap size : ℕ) (t : Text) (bytes : Bytes)
    → cap ≤ size
    → length (Text.array t) ≡ size
    → (take (Text.len (copy_text cap t bytes)) (Text.array (copy_text cap t bytes))
        ≡ take cap bytes)
      × (length (Text.array (copy_text cap t bytes)) ≡ size)
      × (Text.len (copy_text cap t bytes) ≤ cap)
unfolding copy_text
copy_text_reads cap size t bytes fits len =
    let n : ℕ = min (length bytes) cap in
    let rest : Bytes = drop n (Text.array t) in
    let at : length (take n bytes) ≡ n = omega (arith, length-take n bytes) in
    (
      ap (λ k. take k (take n bytes ++ rest)) (sym at)
          ∙ take-length_append (take n bytes) rest
          ∙ take_min cap bytes,
      omega (arith, length-append (take n bytes) rest, at, length-drop n (Text.array t), len, fits),
      omega arith,
    )
