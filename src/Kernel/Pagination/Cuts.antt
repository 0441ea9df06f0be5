-- ===== src/Kernel/Pagination/Cuts.antt =====
-- Lists cut in two, and their last items.
use corebase.Base.{
  ℕ, zero, suc, ◌+◌, ◌≤◌, ◌<◌, ◌≡◌, refl, ap, none, some, List, [], ◌∷◌, ◌++◌, length, take, arith,
}
use corebase.Base.Texts.{drop}
use corebase.Kernel.Pagination.{last}

module _ {A : Type 0} where
  pub take-drop : (n : ℕ) (xs : List A) → take n xs ++ drop n xs ≡ xs
  take-drop zero xs = refl
  take-drop (suc n) [] = refl
  take-drop (suc n) (x ∷ xs) = ap (λ ys. x ∷ ys) (take-drop n xs)

  pub length-drop : (n : ℕ) (xs : List A) → n ≤ length xs → length (drop n xs) + n ≡ length xs
  length-drop zero xs h = omega arith
  length-drop (suc n) [] h = omega arith
  length-drop (suc n) (x ∷ xs) h = omega (arith, length-drop n xs)

  pub take_all : (n : ℕ) (xs : List A) → length xs ≤ n → take n xs ≡ xs
  take_all zero [] h = refl
  take_all zero (x ∷ xs) h = absurd (omega arith)
  take_all (suc n) [] h = refl
  take_all (suc n) (x ∷ xs) h = ap (λ ys. x ∷ ys) (take_all n xs (omega arith))

  pub take_again : (n : ℕ) (xs : List A) → take n (take (suc n) xs) ≡ take n xs
  take_again zero xs = refl
  take_again (suc n) [] = refl
  take_again (suc n) (x ∷ xs) = ap (λ ys. x ∷ ys) (take_again n xs)

  pub length-take : (n : ℕ) (xs : List A) → n ≤ length xs → length (take n xs) ≡ n
  length-take zero xs h = refl
  length-take (suc n) [] h = absurd (omega arith)
  length-take (suc n) (x ∷ xs) h = ap suc (length-take n xs (omega arith))

  -- A nonempty list ends with its last item.
  pub split_last :
      (xs : List A)
      → 0 < length xs
      → (init : List A) × (x : A) × (xs ≡ init ++ x ∷ []) × (last xs ≡ some x)
  split_last [] h = absurd (omega arith)
  split_last (x ∷ []) h = ([], x, refl, refl)
  split_last (x ∷ y ∷ xs) h =
      let (init, z, e, f) = split_last (y ∷ xs) (omega arith) in
      (x ∷ init, z, ap (λ ys. x ∷ ys) e, ap (λ o. elim o [ none ↦ some x | some w ↦ some w ]) f)
