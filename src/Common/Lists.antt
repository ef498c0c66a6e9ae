-- ===== src/Common/Lists.antt =====
-- Byte strings, and lists measured by native numbers.
use Prim.Native.Nat.{ℕ, zero, suc, ◌+◌, ◌-◌, ◌≤◌}
use mathlib.Core.Path.{◌≡◌, refl, ap}
use mathlib.Core.Logic.{◌↔◌, ◌⊎◌, ◌≢◌, inl, inr}
use mathlib.Core.Bool.{Bool, true, false, ◌&&◌}
use mathlib.Core.List.{List, [], ◌∷◌, ◌++◌}
use native.Mathlib.Omega.{arith}
use Prim.Native.Char.{code}
use Prim.Native.String.{String}
use chain_rice.Common.Tests.{◌==◌, ==_iff, Bool-cases}

-- A Go `[]byte`.
abbrev pub Bytes : Type 0
Bytes = List ℕ

-- A Go `string` is its bytes, and a literal is written `str "..."`, which is right for ASCII.
abbrev pub GoString : Type 0
GoString = List ℕ

abbrev pub str : String → GoString
str String.[] = []
str (String.◌∷◌ c s) = code c ∷ str s

-- `s == ""`
abbrev pub is_empty : GoString → Bool
is_empty [] = true
is_empty (x ∷ xs) = false

-- `bytes.Equal`
abbrev pub bytes_equal : Bytes → Bytes → Bool
bytes_equal [] [] = true
bytes_equal [] (y ∷ ys) = false
bytes_equal (x ∷ xs) [] = false
bytes_equal (x ∷ xs) (y ∷ ys) = x == y && bytes_equal xs ys

pub bytes_equal_iff : (xs ys : Bytes) → (bytes_equal xs ys ≡ true) ↔ (xs ≡ ys)
bytes_equal_iff [] [] = ground arith
bytes_equal_iff [] (y ∷ ys) = ground arith
bytes_equal_iff (x ∷ xs) [] = ground arith
bytes_equal_iff (x ∷ xs) (y ∷ ys) = ground (arith, ==_iff x y, bytes_equal_iff xs ys)

pub bytes_dec : (xs ys : Bytes) → (xs ≡ ys) ⊎ (xs ≢ ys)
bytes_dec xs ys = elim (Bool-cases (bytes_equal xs ys)) [
  | inl e ↦ inl ((bytes_equal_iff xs ys).0 e)
  | inr e ↦ inr (λ h. absurd (ground (arith, (bytes_equal_iff xs ys).1 h)))
]

module _ {ℓ} {A : Type ℓ} where
  abbrev pub length : List A → ℕ
  length [] = 0
  length (x ∷ xs) = suc (length xs)

  pub length-append : (xs ys : List A) → length (xs ++ ys) ≡ length xs + length ys
  length-append [] ys = omega arith
  length-append (x ∷ xs) ys = omega (arith, length-append xs ys)

  abbrev pub take : ℕ → List A → List A
  take zero xs = []
  take (suc n) [] = []
  take (suc n) (x ∷ xs) = x ∷ take n xs

  abbrev pub drop : ℕ → List A → List A
  drop zero xs = xs
  drop (suc n) [] = []
  drop (suc n) (x ∷ xs) = drop n xs

  abbrev pub replicate : ℕ → A → List A
  replicate zero a = []
  replicate (suc n) a = a ∷ replicate n a

  -- A write out of bounds changes nothing.
  abbrev pub set : List A → ℕ → A → List A
  set [] i v = []
  set (x ∷ xs) zero v = v ∷ xs
  set (x ∷ xs) (suc i) v = x ∷ set xs i v

  -- `copy(xs[i:], ys)`
  abbrev pub overwrite : List A → ℕ → List A → List A
  overwrite [] i ys = []
  overwrite (x ∷ xs) zero [] = x ∷ xs
  overwrite (x ∷ xs) zero (y ∷ ys) = y ∷ overwrite xs zero ys
  overwrite (x ∷ xs) (suc i) ys = x ∷ overwrite xs i ys

module _ {ℓ} {A : Type ℓ} where
  pub length-replicate : (n : ℕ) (a : A) → length (replicate n a) ≡ n
  length-replicate zero a = refl
  length-replicate (suc n) a = ap suc (length-replicate n a)

  pub length-drop : (n : ℕ) (xs : List A) → length (drop n xs) ≡ length xs - n
  length-drop zero xs = omega arith
  length-drop (suc n) [] = omega arith
  length-drop (suc n) (x ∷ xs) = omega (arith, length-drop n xs)

  pub take-append : (xs ys : List A) → take (length xs) (xs ++ ys) ≡ xs
  take-append [] ys = refl
  take-append (x ∷ xs) ys = rw (take-append xs ys)

  pub drop-append : (xs ys : List A) → drop (length xs) (xs ++ ys) ≡ ys
  drop-append [] ys = refl
  drop-append (x ∷ xs) ys = drop-append xs ys

  pub set-append :
      (xs : List A) (y : A) (ys : List A) (v : A)
      → set (xs ++ (y ∷ ys)) (length xs) v ≡ xs ++ (v ∷ ys)
  set-append [] y ys v = refl
  set-append (x ∷ xs) y ys v = ap (λ (t : List A). x ∷ t) (set-append xs y ys v)

  overwrite-head :
      (gap ys post : List A) → length gap ≡ length ys → overwrite (gap ++ post) zero ys ≡ ys ++ post
  overwrite-head [] [] [] h = refl
  overwrite-head [] [] (x ∷ post) h = refl
  overwrite-head [] (y ∷ ys) post h = absurd (omega arith)
  overwrite-head (x ∷ gap) [] post h = absurd (omega arith)
  overwrite-head (x ∷ gap) (y ∷ ys) post h =
      ap (λ (t : List A). y ∷ t) (overwrite-head gap ys post (omega arith))

  -- Copying into a gap of the right length.
  pub overwrite-append :
      (pre gap post ys : List A)
      → length gap ≡ length ys
      → overwrite (pre ++ (gap ++ post)) (length pre) ys ≡ pre ++ (ys ++ post)
  overwrite-append [] gap post ys h = overwrite-head gap ys post h
  overwrite-append (x ∷ pre) gap post ys h =
      ap (λ (t : List A). x ∷ t) (overwrite-append pre gap post ys h)

  pub take-append-drop : (n : ℕ) (xs : List A) → take n xs ++ drop n xs ≡ xs
  take-append-drop zero xs = refl
  take-append-drop (suc n) [] = refl
  take-append-drop (suc n) (x ∷ xs) = rw (take-append-drop n xs)

  pub length-take-le : (n : ℕ) (xs : List A) → length (take n xs) ≤ length xs
  length-take-le zero xs = omega arith
  length-take-le (suc n) [] = omega arith
  length-take-le (suc n) (x ∷ xs) = omega (arith, length-take-le n xs)
