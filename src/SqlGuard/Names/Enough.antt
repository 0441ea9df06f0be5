-- ===== src/SqlGuard/Names/Enough.antt =====
-- The fuel of `object_names` is enough.
use corebase.Base.{
  ℕ, zero, suc, ◌≤◌, ◌<◌, ◌≡◌, refl, sym, ap, ◌∙◌, inl, inr, ◌&&◌, Option, none, some, List, [],
  ◌∷◌, arith, length, Bool-cases, Option-cases, if◌then◌else◌,
}
use corebase.Base.Texts.{Text, join}
use corebase.SqlGuard.Lexer.{Token}
use corebase.SqlGuard.Split.{Statement, is_punct}
use corebase.SqlGuard.Names.{dotted_parts, dotted_name, names_from, is_name, token_text}

parts_shrink : (s : Statement) (toks : List Token) → length (dotted_parts s toks).1 ≤ length toks
unfolding dotted_parts
parts_shrink s [] = omega arith
parts_shrink s (t ∷ []) = omega arith
parts_shrink s (dot ∷ t ∷ toks) =
    let ih = parts_shrink s toks in
    elim (Bool-cases (is_punct b'.' dot && is_name t)) [
      | inl on ↦ rw on (omega arith)
      | inr off ↦ rw off (omega arith)
    ]

name_shrinks :
    (s : Statement) (toks : List Token) (name : Text) (next : List Token)
    → dotted_name s toks ≡ some (name, next)
    → length next < length toks
unfolding dotted_name
name_shrinks s [] name next e = absurd (cc)
name_shrinks s (t ∷ toks) name next e = elim (Bool-cases (is_name t)) [
  | inl named ↦
      let ih = parts_shrink s toks in
      let full : ◌≡◌ {A = Option (Text × List Token)}
          (some
            (join (b'.' ∷ []) (token_text s t ∷ (dotted_parts s toks).0), (dotted_parts s toks).1))
          (some (name, next)) =
        rw named at e in
      let same : (dotted_parts s toks).1 ≡ next = cc in rw (sym same) (omega arith)
  | inr unnamed ↦
      let gone : ◌≡◌ {A = Option (Text × List Token)} none (some (name, next)) = rw unnamed at e in
      absurd (cc)
]

-- What a round makes of a name and what is after it.
abbrev after_name : Statement → ℕ → Text → List Token → List Text
after_name s fuel name [] = name ∷ []
after_name s fuel name (t ∷ ahead) =
    if is_punct b',' t then name ∷ names_from s fuel ahead else name ∷ []

round :
    (s : Statement) (fuel : ℕ) (toks : List Token) (name : Text) (next : List Token)
    → dotted_name s toks ≡ some (name, next)
    → names_from s (suc fuel) toks ≡ after_name s fuel name next
unfolding names_from
round s fuel toks name [] e = rw (e, names_from) refl
round s fuel toks name (t ∷ ahead) e = rw (e, names_from) refl

later :
    (s : Statement) (fuel : ℕ) (name : Text) (next : List Token)
    → ((ahead : List Token)
        → length ahead ≤ fuel
        → names_from s fuel ahead ≡ names_from s (suc fuel) ahead)
    → length next ≤ fuel
    → after_name s fuel name next ≡ after_name s (suc fuel) name next
later s fuel name [] settles k = refl
later s fuel name (t ∷ ahead) settles k =
    ap (λ names. if is_punct b',' t then name ∷ names else name ∷ []) (settles ahead (omega arith))

-- With as many rounds as there are tokens, or more, one more round changes nothing.
pub names_from_settles :
    (s : Statement) (fuel : ℕ) (toks : List Token)
    → length toks ≤ fuel
    → names_from s fuel toks ≡ names_from s (suc fuel) toks
unfolding names_from dotted_name
names_from_settles s zero [] h = refl
names_from_settles s zero (t ∷ toks) h = absurd (omega arith)
names_from_settles s (suc fuel) toks h = elim (Option-cases (dotted_name s toks)) [
  | inl e ↦ rw (e, names_from) refl
  | inr ((name, next), e) ↦
      let less = name_shrinks s toks name next e in
      round s fuel toks name next e
      ∙ (later s fuel name next (λ ahead k. names_from_settles s fuel ahead k) (omega arith)
          ∙ sym (round s (suc fuel) toks name next e))
]
