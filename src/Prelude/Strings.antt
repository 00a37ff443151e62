-- ===== src/Prelude/Strings.antt =====
-- The operations on native texts that the code builds messages with.
use Prim.Native.Nat.{ℕ, zero, suc, ◌/◌, ◌%◌}
use Prim.Native.Char.{Char, code}
use mathlib.Core.Bool.{Bool, true, ◌&&◌, ◌||◌}
use mathlib.Core.Path.{◌≡◌, refl}
use text.Mathlib.Text.{◌==◌ as str_eq}
use favl_agentic_content_os.Prelude.Tests.{◌==◌, leb, ltb, if◌then◌else◌}
use Prim.Native.String.{String}
use mathlib.Core.List.{List, [], ◌∷◌}

-- `s + t`
abbrev pub append : String → String → String
append String.[] t = t
append (String.◌∷◌ c s) t = String.◌∷◌ c (append s t)

-- `s[:n]`
abbrev pub cut : ℕ → String → String
cut zero s = ""
cut (suc n) String.[] = ""
cut (suc n) (String.◌∷◌ c s) = String.◌∷◌ c (cut n s)

-- `sep.join(texts)`
abbrev pub join : String → List String → String
join sep [] = ""
join sep (t ∷ []) = t
join sep (t ∷ u ∷ ts) = append t (append sep (join sep (u ∷ ts)))

-- `all(test(c) for c in s)`
abbrev pub every_char : (ℕ → Bool) → String → Bool
every_char test String.[] = true
every_char test (String.◌∷◌ c s) = test (code c) && every_char test s

-- The characters that `str.strip()` takes away, in ASCII.
abbrev pub is_ascii_space : ℕ → Bool
is_ascii_space c = c == 32 || ((leb 9 c && leb c 13) || (leb 28 c && leb c 31))

-- `s.lstrip(chars)` and `s.rstrip(chars)`, the characters as a test.
abbrev pub lstrip_of : (ℕ → Bool) → String → String
lstrip_of test String.[] = ""
lstrip_of test (String.◌∷◌ c s) =
    let rest = lstrip_of test s in if test (code c) then rest else String.◌∷◌ c s

abbrev pub rstrip_of : (ℕ → Bool) → String → String
rstrip_of test String.[] = ""
rstrip_of test (String.◌∷◌ c s) =
    let rest = rstrip_of test s in if test (code c) && str_eq rest "" then "" else String.◌∷◌ c rest

abbrev pub strip : String → String
strip s = rstrip_of is_ascii_space (lstrip_of is_ascii_space s)

-- `s.split(c)`
abbrev pub add_first : Char → List String → List String
add_first d [] = String.◌∷◌ d "" ∷ []
add_first d (part ∷ parts) = String.◌∷◌ d part ∷ parts

abbrev pub split_on : ℕ → String → List String
split_on c String.[] = "" ∷ []
split_on c (String.◌∷◌ d s) =
    let rest = split_on c s in if code d == c then "" ∷ rest else add_first d rest

-- `str(n)`, on fuel: n + 1 is enough, since each turn divides by ten.
abbrev digit : ℕ → String
digit d =
    if d == 0
    then "0"
    else if d == 1
    then "1"
    else if d == 2
    then "2"
    else if d == 3
    then "3"
    else if d == 4
    then "4"
    else if d == 5
    then "5"
    else if d == 6
    then "6"
    else if d == 7
    then "7"
    else if d == 8
    then "8"
    else "9"

unfoldable pub decimal_on : ℕ → ℕ → String
decimal_on zero n = ""
decimal_on (suc fuel) n =
    let rest = decimal_on fuel (n / 10) in
    if ltb n 10 then digit n else append rest (digit (n % 10))

unfoldable pub decimal : ℕ → String
unfolding decimal_on
decimal n = decimal_on (suc n) n

decimal-504 : decimal 504 ≡ "504"
unfolding decimal decimal_on
decimal-504 = refl
