-- ===== src/Prelude/Splice.antt =====
-- Cutting lists at a place that is known from the length of a part.
use Prim.Native.Nat.{ℕ, zero, suc, ◌≤◌}
use mathlib.Core.Path.{◌≡◌, refl, sym}
use mathlib.Core.List.{List, [], ◌∷◌, ◌++◌}
use native.Mathlib.Omega.{arith}
use aimless_onions.Prelude.{length, take, drop, take-append-drop, length-take}

module _ {ℓ} {A : Type ℓ} where
  pub take-append_exact : (n : ℕ) (xs ys : List A) → length xs ≡ n → take n (xs ++ ys) ≡ xs
  take-append_exact zero [] ys e = refl
  take-append_exact (suc n) [] ys e = absurd (omega arith)
  take-append_exact zero (x ∷ xs) ys e = absurd (omega arith)
  take-append_exact (suc n) (x ∷ xs) ys e = rw (take-append_exact n xs ys (omega arith))

  pub drop-append_exact : (n : ℕ) (xs ys : List A) → length xs ≡ n → drop n (xs ++ ys) ≡ ys
  drop-append_exact zero [] ys e = refl
  drop-append_exact (suc n) [] ys e = absurd (omega arith)
  drop-append_exact zero (x ∷ xs) ys e = absurd (omega arith)
  drop-append_exact (suc n) (x ∷ xs) ys e = drop-append_exact n xs ys (omega arith)

  pub take-all : (n : ℕ) (xs : List A) → length xs ≡ n → take n xs ≡ xs
  take-all zero [] e = refl
  take-all (suc n) [] e = refl
  take-all zero (x ∷ xs) e = absurd (omega arith)
  take-all (suc n) (x ∷ xs) e = rw (take-all n xs (omega arith))

  -- A list that is long enough is two parts, the first of the length that is asked for.
  pub split-at :
      (n : ℕ) (xs : List A)
      → n ≤ length xs
      → (front : List A) × (back : List A) × (xs ≡ front ++ back) × (length front ≡ n)
  split-at n xs h =
      (take n xs, drop n xs, sym (take-append-drop n xs), omega (arith, length-take n xs))
