-- ===== src/Common/Text.antt =====
-- The operations on texts that the code uses, character by character: `trim`, `startsWith`,
-- `split(key).join('')` and `join`.
use Prim.Native.Nat.{ℕ, zero, suc, ◌+◌, ◌-◌}
use Prim.Native.Char.{code}
use Prim.Native.String.{String}
use mathlib.Core.Bool.{Bool, true, false, ◌&&◌, ◌||◌}
use mathlib.Core.List.{List, [], ◌∷◌}
use text.Mathlib.Text.{◌==◌ as str_eq}
use minori.Common.Lists.{take, drop}
use minori.Common.Tests.{leb, ◌==◌, if◌then◌else◌}

abbrev pub is_between : ℕ → ℕ → ℕ → Bool
is_between low high n = leb low n && leb n high

-- White space and line ends: `\s`, and what `trim` removes.
unfoldable pub is_space : ℕ → Bool
is_space n =
    is_between 9 13 n
    || (n == 32
        || (n == 160
            || (n == 5760
                || (is_between 8192 8202 n
                    || (is_between 8232 8233 n
                        || (n == 8239 || (n == 8287 || (n == 12288 || n == 65279))))))))

abbrev pub is_empty : String → Bool
is_empty String.[] = true
is_empty (String.◌∷◌ c s) = false

abbrev pub size : String → ℕ
size String.[] = 0
size (String.◌∷◌ c s) = suc (size s)

abbrev pub append : String → String → String
append String.[] t = t
append (String.◌∷◌ c s) t = String.◌∷◌ c (append s t)

unfoldable pub trim_start : String → String
unfolding is_space
trim_start String.[] = ""
trim_start (String.◌∷◌ c s) =
    let rest = trim_start s in if is_space (code c) then rest else String.◌∷◌ c s

unfoldable pub trim_end : String → String
unfolding is_space
trim_end String.[] = ""
trim_end (String.◌∷◌ c s) =
    let rest = trim_end s in if is_empty rest && is_space (code c) then "" else String.◌∷◌ c rest

unfoldable pub trim : String → String
unfolding trim_start trim_end
trim s = trim_end (trim_start s)

-- `s.startsWith(prefix)`, with the prefix first.
abbrev pub starts_with : String → String → Bool
starts_with String.[] s = true
starts_with (String.◌∷◌ c p) String.[] = false
starts_with (String.◌∷◌ c p) (String.◌∷◌ d s) = code c == code d && starts_with p s

-- `s.includes(part)`, with the part first.
abbrev pub includes : String → String → Bool
includes part String.[] = is_empty part
includes part (String.◌∷◌ c s) = starts_with part (String.◌∷◌ c s) || includes part s

abbrev pub drop_chars : ℕ → String → String
drop_chars zero s = s
drop_chars (suc n) String.[] = ""
drop_chars (suc n) (String.◌∷◌ c s) = drop_chars n s

-- The text without the occurrences of `key` from left to right; the first argument counts the
-- characters that are left of the occurrence that is being passed over.
abbrev pub cut : ℕ → String → String → String
cut skip key String.[] = ""
cut zero key (String.◌∷◌ c s) =
    let found = starts_with key (String.◌∷◌ c s) in
    let rest = cut (if found then size key - 1 else 0) key s in
    if found then rest else String.◌∷◌ c rest
cut (suc n) key (String.◌∷◌ c s) = cut n key s

-- `s.split(key).join('')`
unfoldable pub remove_all : String → String → String
remove_all key s = if is_empty key then s else cut 0 key s

-- `xs.join(separator)`
abbrev pub join : String → List String → String
join separator [] = ""
join separator (s ∷ []) = s
join separator (s ∷ t ∷ ts) = append s (append separator (join separator (t ∷ ts)))

-- `xs.includes(s)`
abbrev pub any_text : String → List String → Bool
any_text s [] = false
any_text s (t ∷ ts) = str_eq t s || any_text s ts

-- The code points of a text.
abbrev pub codes : String → List ℕ
codes String.[] = []
codes (String.◌∷◌ c s) = code c ∷ codes s

abbrev pub codes_eq : List ℕ → List ℕ → Bool
codes_eq [] [] = true
codes_eq [] (y ∷ ys) = false
codes_eq (x ∷ xs) [] = false
codes_eq (x ∷ xs) (y ∷ ys) = x == y && codes_eq xs ys

abbrev pub codes_start_with : List ℕ → List ℕ → Bool
codes_start_with [] s = true
codes_start_with (x ∷ p) [] = false
codes_start_with (x ∷ p) (y ∷ s) = x == y && codes_start_with p s

-- The decimal digits of a number, the last one first, and `String(n)`.
abbrev pub next_digits : List ℕ → List ℕ
next_digits [] = 1 ∷ []
next_digits (d ∷ ds) = let rest = next_digits ds in if d == 9 then 0 ∷ rest else (d + 1) ∷ ds

abbrev pub digits : ℕ → List ℕ
digits zero = 0 ∷ []
digits (suc n) = next_digits (digits n)

abbrev pub digit_texts : List String
digit_texts = "0" ∷ "1" ∷ "2" ∷ "3" ∷ "4" ∷ "5" ∷ "6" ∷ "7" ∷ "8" ∷ "9" ∷ []

abbrev pub digit_text : ℕ → String
digit_text d = join "" (take 1 (drop d digit_texts))

abbrev pub digits_text : List ℕ → String
digits_text [] = ""
digits_text (d ∷ ds) = append (digits_text ds) (digit_text d)

abbrev pub decimal : ℕ → String
decimal n = digits_text (digits n)
