-- ===== src/Base/Texts.antt =====
-- Texts as lists of UTF-16 code units, and the string functions that are used on them.
use Prim.Native.Char.{code}
use corebase.Base.{
  ◌+◌, ◌/◌, ◌%◌, ℕ, zero, suc, ◌-◌, Bool, true, false, ◌&&◌, ◌||◌, Option, none, some, String, List,
  [], ◌∷◌, ◌++◌, ◌==◌, leb, take, if◌then◌else◌,
}

abbrev pub Text : Type 0
Text = List ℕ

-- A literal, which is ASCII.
abbrev pub codes : String → Text
codes String.[] = []
codes (String.◌∷◌ c s) = code c ∷ codes s

abbrev pub drop {ℓ} : {A : Type ℓ} → ℕ → List A → List A
drop zero xs = xs
drop (suc n) [] = []
drop (suc n) (x ∷ xs) = drop n xs

-- `s.slice(start, end)` for `start <= end`
abbrev pub slice : ℕ → ℕ → Text → Text
slice start stop s = take (stop - start) (drop start s)

-- `a === b`
abbrev pub same : Text → Text → Bool
same [] [] = true
same [] (d ∷ t) = false
same (c ∷ s) [] = false
same (c ∷ s) (d ∷ t) = c == d && same s t

-- `s.startsWith(t)`
abbrev pub starts : Text → Text → Bool
starts [] s = true
starts (d ∷ t) [] = false
starts (d ∷ t) (c ∷ s) = c == d && starts t s

-- `s.indexOf(t)`, `none` for -1
abbrev pub index_of : Text → Text → Option ℕ
index_of t [] = if starts t [] then some 0 else none
index_of t (c ∷ s) = elim (starts t (c ∷ s)) [
  | true ↦ some 0
  | false ↦ elim (index_of t s) [ none ↦ none | some i ↦ some (suc i) ]
]

-- How many leading code units pass the test.
abbrev pub run : (ℕ → Bool) → Text → ℕ
run p [] = 0
run p (c ∷ s) = if p c then suc (run p s) else 0

-- `parts.join(separator)`
abbrev pub join : Text → List Text → Text
join separator [] = []
join separator (x ∷ []) = x
join separator (x ∷ y ∷ rest) = x ++ separator ++ join separator (y ∷ rest)

abbrev pub between : ℕ → ℕ → ℕ → Bool
between low high c = leb low c && leb c high

-- `/\s/`
abbrev pub is_space : ℕ → Bool
is_space c =
    between 9 13 c
    || c == 32
    || c == 160
    || c == 5760
    || between 8192 8202 c
    || c == 8232
    || c == 8233
    || c == 8239
    || c == 8287
    || c == 12288
    || c == 65279

abbrev pub skip_space : Text → Text
skip_space [] = []
skip_space (c ∷ s) = if is_space c then skip_space s else c ∷ s

abbrev pub backwards : Text → Text → Text
backwards [] out = out
backwards (c ∷ s) out = backwards s (c ∷ out)

-- `s.trim()`
unfoldable pub trim : Text → Text
trim s = backwards (skip_space (backwards (skip_space s) [])) []

-- `s.replace(/q/g, 'qq')`
abbrev pub doubled : ℕ → Text → Text
doubled q [] = []
doubled q (c ∷ s) = if c == q then c ∷ c ∷ doubled q s else c ∷ doubled q s

abbrev pub enquoted : ℕ → Text → Text
enquoted q s = q ∷ doubled q s ++ q ∷ []

-- A number in a template literal; it has no more digits than its value, plus one.
abbrev pub digits_from : ℕ → ℕ → Text → Text
digits_from zero n rest = rest
digits_from (suc fuel) n rest =
    let more = digits_from fuel (n / 10) ((b'0' + n % 10) ∷ rest) in
    if n / 10 == 0 then (b'0' + n % 10) ∷ rest else more

unfoldable pub digits : ℕ → Text
digits n = digits_from (n + 1) n []

-- `xs.map((x, i) => f(x, i + from))`
abbrev pub numbered {ℓ κ} : {A : Type ℓ} {B : Type κ} → (A → ℕ → B) → ℕ → List A → List B
numbered f from [] = []
numbered f from (x ∷ xs) = f x from ∷ numbered f (from + 1) xs
