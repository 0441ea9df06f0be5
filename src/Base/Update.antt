-- ===== src/Base/Update.antt =====
-- `UPDATE … SET … WHERE … RETURNING`: the table afterwards and the rows that were rewritten.
use corebase.Base.{
  ◌≡◌, refl, ap, map, keep, none, some, first, Bool, true, false, List, [], ◌∷◌, Bool-cases, All,
  inl, inr, if◌then◌else◌,
}

module _ {ℓ} {A : Type ℓ} (test : A → Bool) (set : A → A) where
  unfoldable pub update : List A → List A × List A
  update [] = ([], [])
  update (x ∷ xs) =
      let (ys, rows) = update xs in if test x then (set x ∷ ys, set x ∷ rows) else (x ∷ ys, rows)

  -- What holds of every row, and is kept by the assignments where the condition holds.
  pub update-All {κ} :
      (P : A → Type κ) (xs : List A)
      → ((x : A) → test x ≡ true → P x → P (set x))
      → All P xs
      → All P (update xs).0
  unfolding update
  update-All P [] keeps h = tt
  update-All P (x ∷ xs) keeps (p, h) = elim (Bool-cases (test x)) [
    | inl hit ↦ rw hit (keeps x hit p, update-All P xs keeps h)
    | inr miss ↦ rw miss (p, update-All P xs keeps h)
  ]

  -- From what held before to what holds afterwards.
  pub update-All_to {κ κ'} :
      (P : A → Type κ) (Q : A → Type κ') (xs : List A)
      → ((x : A) → test x ≡ true → P x → Q (set x))
      → ((x : A) → test x ≡ false → P x → Q x)
      → All P xs
      → All Q (update xs).0
  unfolding update
  update-All_to P Q [] hit miss h = tt
  update-All_to P Q (x ∷ xs) hit miss (p, h) = elim (Bool-cases (test x)) [
    | inl e ↦ rw e (hit x e p, update-All_to P Q xs hit miss h)
    | inr e ↦ rw e (miss x e p, update-All_to P Q xs hit miss h)
  ]

  -- Every row afterwards is an old one that was passed over or a rewritten one.
  pub update-All_both {κ} :
      (P : A → Type κ) (xs : List A)
      → ((x : A) → test x ≡ true → P (set x))
      → ((x : A) → test x ≡ false → P x)
      → All P (update xs).0
  unfolding update
  update-All_both P [] hit miss = tt
  update-All_both P (x ∷ xs) hit miss = elim (Bool-cases (test x)) [
    | inl e ↦ rw e (hit x e, update-All_both P xs hit miss)
    | inr e ↦ rw e (miss x e, update-All_both P xs hit miss)
  ]

  -- The rows that are returned are rewritten ones.
  pub update-All_rows {κ κ'} :
      (P : A → Type κ) (Q : A → Type κ') (xs : List A)
      → ((x : A) → test x ≡ true → P x → Q (set x))
      → All P xs
      → All Q (update xs).1
  unfolding update
  update-All_rows P Q [] hit h = tt
  update-All_rows P Q (x ∷ xs) hit (p, h) = elim (Bool-cases (test x)) [
    | inl e ↦ rw e (hit x e p, update-All_rows P Q xs hit h)
    | inr e ↦ rw e (update-All_rows P Q xs hit h)
  ]

  -- If no row is returned, none was written.
  pub update-none : (xs : List A) → first (update xs).1 ≡ none → (update xs).0 ≡ xs
  unfolding update
  update-none [] h = refl
  update-none (x ∷ xs) h = elim (Bool-cases (test x)) [
    | inl e ↦ let some_row : some (set x) ≡ none = rw e at h in absurd (cc)
    | inr e ↦ rw e (ap (λ ys. x ∷ ys) (update-none xs (rw e at h)))
  ]

  -- No row is accepted: nothing is written and nothing is returned.
  pub update_miss : (xs : List A) → All (λ x. test x ≡ false) xs → update xs ≡ (xs, [])
  unfolding update
  update_miss [] h = refl
  update_miss (x ∷ xs) (e, h) = rw (e, update_miss xs h)

  -- The table and the returned rows, in one go.
  pub update-map : (xs : List A) → (update xs).0 ≡ map (λ x. if test x then set x else x) xs
  unfolding update
  update-map [] = refl
  update-map (x ∷ xs) = elim (Bool-cases (test x)) [
    | inl e ↦ rw e (ap (λ ys. set x ∷ ys) (update-map xs))
    | inr e ↦ rw e (ap (λ ys. x ∷ ys) (update-map xs))
  ]

  pub update-keep : (xs : List A) → (update xs).1 ≡ map set (keep test xs)
  unfolding update
  update-keep [] = refl
  update-keep (x ∷ xs) = elim (Bool-cases (test x)) [
    | inl e ↦ rw e (ap (λ ys. set x ∷ ys) (update-keep xs))
    | inr e ↦ rw e (update-keep xs)
  ]
