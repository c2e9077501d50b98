-- ===== src/Loader/Executor/Code.antt =====
-- Bytes that stand in memory one after the other.
use grafted.Base.{ℕ, suc, ◌+◌, ◌≤◌, ◌<◌, ◌≡◌, sym, ◌∙◌, ap, [], ◌∷◌, ◌++◌, Bytes, arith, length}
use mathlib.Core.Path.{subst}
use grafted.Loader.Memory.{Memory}

abbrev pub HoldsBytes : Memory → ℕ → Bytes → Type 0
HoldsBytes m at [] = Unit {0}
HoldsBytes m at (b ∷ bs) = (m at ≡ b) × HoldsBytes m (at + 1) bs

pub HoldsBytes-kept :
    (m' m : Memory) (at : ℕ) (bs : Bytes)
    → ((x : ℕ) → at ≤ x → x < at + length bs → m' x ≡ m x)
    → HoldsBytes m at bs
    → HoldsBytes m' at bs
HoldsBytes-kept m' m at [] same h = tt
HoldsBytes-kept m' m at (b ∷ bs) same (h, rest) = (
  same at (omega arith) (omega arith) ∙ h,
  HoldsBytes-kept m' m (at + 1) bs (λ x lo hi. same x (omega arith) (omega arith)) rest,
)

add_suc : (a b : ℕ) → a + 1 + b ≡ a + suc b
add_suc a b = omega arith

zero_add : (a : ℕ) → a ≡ a + 0
zero_add a = omega arith

pub HoldsBytes-append :
    (m : Memory) (at : ℕ) (bs cs : Bytes)
    → HoldsBytes m at (bs ++ cs)
    → HoldsBytes m at bs × HoldsBytes m (at + length bs) cs
HoldsBytes-append m at [] cs h = (tt, subst (λ (x : ℕ). HoldsBytes m x cs) (zero_add at) h)
HoldsBytes-append m at (b ∷ bs) cs (h, rest) =
    let (left, right) = HoldsBytes-append m (at + 1) bs cs rest in
    ((h, left), subst (λ (x : ℕ). HoldsBytes m x cs) (add_suc at (length bs)) right)

-- The byte at another spelling of its address.
pub byte_at : (m : Memory) (x y b : ℕ) → x ≡ y → m x ≡ b → m y ≡ b
byte_at m x y b e h = sym (ap m e) ∙ h
