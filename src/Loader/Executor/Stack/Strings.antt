-- ===== src/Loader/Executor/Stack/Strings.antt =====
-- What pushing strings and words leaves in memory.
use grafted.Base.{
  ℕ, suc, ◌+◌, ◌*◌, ◌/◌, ◌^◌, ◌≤◌, ◌<◌, ◌≡◌, refl, ap, ◌∙◌, List, [], ◌∷◌, nat_eq, length, Bytes,
  arith,
}
use grafted.Loader.Memory.{Memory, put, read_word}
use grafted.Loader.Executor.Stack.{sub64, write_string, push_string, push_strings}

-- The bytes of a string and the byte 0 behind them.
abbrev pub IsString : Memory → ℕ → Bytes → Type 0
IsString m at [] = m at ≡ 0
IsString m at (b ∷ bs) = (m at ≡ b) × IsString m (at + 1) bs

abbrev pub AreStrings : Memory → List ℕ → List Bytes → Type 0
AreStrings m [] [] = Unit {0}
AreStrings m [] (s ∷ ss) = ⊥
AreStrings m (p ∷ ps) [] = ⊥
AreStrings m (p ∷ ps) (s ∷ ss) = IsString m p s × AreStrings m ps ss

-- Words one after the other.
abbrev pub AreWords : Memory → ℕ → List ℕ → Type 0
AreWords m at [] = Unit {0}
AreWords m at (w ∷ ws) = (read_word 8 m at ≡ w) × AreWords m (at + 8) ws

-- Nothing from `sp` on was written.
abbrev pub AgreesFrom : ℕ → Memory → Memory → Type 0
AgreesFrom sp m m' = (x : ℕ) → sp ≤ x → m' x ≡ m x

abbrev pub AreAbove : ℕ → List ℕ → Type 0
AreAbove sp [] = Unit {0}
AreAbove sp (p ∷ ps) = ((sp ≤ p) × (p < 2 ^ 64)) × AreAbove sp ps

abbrev pub room : List Bytes → ℕ
room [] = 0
room (s ∷ ss) = length s + 8 + room ss

pub IsString-kept :
    (m m' : Memory) (sp at : ℕ) (s : Bytes)
    → AgreesFrom sp m m'
    → sp ≤ at
    → IsString m at s
    → IsString m' at s
IsString-kept m m' sp at [] same above h = same at above ∙ h
IsString-kept m m' sp at (b ∷ bs) same above (h, rest) =
    (same at above ∙ h, IsString-kept m m' sp (at + 1) bs same (omega arith) rest)

pub AreStrings-kept :
    (m m' : Memory) (sp : ℕ) (ps : List ℕ) (ss : List Bytes)
    → AgreesFrom sp m m'
    → AreAbove sp ps
    → AreStrings m ps ss
    → AreStrings m' ps ss
AreStrings-kept m m' sp [] [] same above h = tt
AreStrings-kept m m' sp [] (s ∷ ss) same above h = absurd h
AreStrings-kept m m' sp (p ∷ ps) [] same above h = absurd h
AreStrings-kept m m' sp (p ∷ ps) (s ∷ ss) same (here, above) (h, rest) =
    (IsString-kept m m' sp p s same here.0 h, AreStrings-kept m m' sp ps ss same above rest)

pub AreAbove-lower : (sp sp' : ℕ) (ps : List ℕ) → sp' ≤ sp → AreAbove sp ps → AreAbove sp' ps
AreAbove-lower sp sp' [] h above = tt
AreAbove-lower sp sp' (p ∷ ps) h (here, above) =
    ((omega arith, here.1), AreAbove-lower sp sp' ps h above)

write_string_outside :
    (m : Memory) (at : ℕ) (s : Bytes) (x : ℕ) → at + length s + 1 ≤ x → write_string m at s x ≡ m x
unfolding write_string
write_string_outside m at [] x h = ground arith
write_string_outside m at (b ∷ bs) x h = ground (arith, write_string_outside m (at + 1) bs x)

write_string-IsString : (m : Memory) (at : ℕ) (s : Bytes) → IsString (write_string m at s) at s
unfolding write_string
write_string-IsString m at [] = ground arith
write_string-IsString m at (b ∷ bs) = (
  ground arith,
  IsString-kept (write_string m (at + 1) bs) (put (write_string m (at + 1) bs) at b) (at + 1)
      (at + 1) bs (λ x h. ground arith) (omega arith) (write_string-IsString m (at + 1) bs),
)

-- Pushing strings moves the pointer down by no more than their room, writes below it only, and
-- leaves each string where its pointer says.
pub push_strings-lem :
    (ss : List Bytes) (sp : ℕ) (m : Memory)
    → room ss ≤ sp
    → sp < 2 ^ 64
    → let r = push_strings (sp, m) ss in
      (r.0.0 ≤ sp)
      × (sp ≤ r.0.0 + room ss)
      × AgreesFrom sp m r.0.1
      × AreAbove r.0.0 r.1
      × AreStrings r.0.1 r.1 ss
      × (length r.1 ≡ length ss)
unfolding push_strings push_string
push_strings-lem [] sp m fits small = (omega arith, omega arith, λ x h. refl, tt, tt, refl)
push_strings-lem (s ∷ ss) sp m fits small =
    let at = sub64 sp (length s + 1) / 8 * 8 in
    let below : at + length s + 1 ≤ sp = omega arith in
    let near : sp ≤ at + (length s + 8) = omega arith in
    let m1 = write_string m at s in
    let (lower, upper, same, above, strings, size) =
      push_strings-lem ss at m1 (omega arith) (omega arith) in
    let r = push_strings (at, m1) ss in
    (
      omega arith,
      omega arith,
      λ x h. same x (omega arith) ∙ write_string_outside m at s x (omega arith),
      ((lower, omega arith), above),
      (IsString-kept m1 r.0.1 at at s same (omega arith) (write_string-IsString m at s), strings),
      ap suc size,
    )
