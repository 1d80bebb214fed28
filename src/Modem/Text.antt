-- ===== src/Modem/Text.antt =====
-- The functions of Go's packages strings, strconv and encoding/hex that internal/modem calls, on texts
-- of Unicode characters.
use Prim.Native.Char.{Char, code}
use Prim.Native.String.{[] as empty, ◌∷◌ as ◌∺◌}
use at_gateway.Prelude.{
  ℕ, zero, suc, ◌+◌, ◌-◌, ◌*◌, ◌^◌, String, Bool, true, false, ◌&&◌, ◌||◌, Option, none, some, List,
  [], ◌∷◌, ltb, leb, if◌then◌else◌, ◌==◌, nat_eq, string_eq,
}

abbrev same_char : Char → Char → Bool
same_char c d = code c == code d

-- `strings.CutPrefix(s, prefix)`.
abbrev pub cut_prefix : String → String → Option String
cut_prefix s empty = some s
cut_prefix empty (p ∺ ps) = none
cut_prefix (c ∺ s) (p ∺ ps) = let rest = cut_prefix s ps in if same_char c p then rest else none

abbrev is_found : Option String → Bool
is_found none = false
is_found (some s) = true

-- `strings.HasPrefix(s, prefix)`.
abbrev pub has_prefix : String → String → Bool
has_prefix s prefix = is_found (cut_prefix s prefix)

abbrev or_later : Option String → Option String → Option String
or_later none later = later
or_later (some s) later = some s

-- What `strings.Cut(s, sep)` answers after the separator, if it is found.
abbrev pub cut_after : String → String → Option String
cut_after empty sep = cut_prefix empty sep
cut_after (c ∺ s) sep = or_later (cut_prefix (c ∺ s) sep) (cut_after s sep)

abbrev push_char : Char → List String → List String
push_char c [] = (c ∺ empty) ∷ []
push_char c (s ∷ ss) = (c ∺ s) ∷ ss

-- `strings.Split(s, ",")`.
abbrev pub split_commas : String → List String
split_commas empty = empty ∷ []
split_commas (c ∺ s) =
    let fields = split_commas s in if code c == 44 then empty ∷ fields else push_char c fields

abbrev trim_left : (Char → Bool) → String → String
trim_left p empty = empty
trim_left p (c ∺ s) = let rest = trim_left p s in if p c then rest else c ∺ s

abbrev put_back : (Char → Bool) → Char → String → String
put_back p c empty = if p c then empty else c ∺ empty
put_back p c (d ∺ s) = c ∺ d ∺ s

abbrev trim_right : (Char → Bool) → String → String
trim_right p empty = empty
trim_right p (c ∺ s) = put_back p c (trim_right p s)

abbrev trim : (Char → Bool) → String → String
trim p s = trim_right p (trim_left p s)

abbrev between : ℕ → ℕ → ℕ → Bool
between low high n = leb low n && leb n high

-- `unicode.IsSpace`.
abbrev space_code : ℕ → Bool
space_code n =
    between 9 13 n
    || n == 32
    || n == 133
    || n == 160
    || n == 5760
    || between 8192 8202 n
    || n == 8232
    || n == 8233
    || n == 8239
    || n == 8287
    || n == 12288

-- `strings.TrimSpace(s)`.
abbrev pub trim_space : String → String
trim_space s = trim (λ c. space_code (code c)) s

-- `strings.Trim(s, "\"")`.
abbrev pub trim_quotes : String → String
trim_quotes s = trim (λ c. code c == 34) s

-- The whole numbers that `strconv.Atoi` answers.
pub data ℤ : Type 0 where
  pos negsuc : ℕ → ℤ

abbrev digits : ℕ → String → Option ℕ
digits n empty = some n
digits n (c ∺ s) =
    let rest = digits (n * 10 + (code c - 48)) s in if between 48 57 (code c) then rest else none

abbrev some_digits : String → Option ℕ
some_digits empty = none
some_digits (c ∺ s) = digits 0 (c ∺ s)

abbrev positive : Option ℕ → Option ℤ
positive none = none
positive (some n) = if ltb n (2 ^ 63) then some (pos n) else none

abbrev negative : Option ℕ → Option ℤ
negative none = none
negative (some zero) = some (pos 0)
negative (some (suc n)) = if leb (suc n) (2 ^ 63) then some (negsuc n) else none

-- `strconv.Atoi(s)` for an int of 64 bits.
abbrev pub atoi : String → Option ℤ
atoi empty = none
atoi (c ∺ s) =
    if code c == 45
    then negative (some_digits s)
    else if code c == 43
    then positive (some_digits s)
    else positive (some_digits (c ∺ s))

abbrev hex_digit : ℕ → Bool
hex_digit n = between 48 57 n || between 65 70 n || between 97 102 n

-- Whether `hex.DecodeString(s)` succeeds.
abbrev pub is_hex : String → Bool
is_hex empty = true
is_hex (c ∺ empty) = false
is_hex (c ∺ d ∺ s) = hex_digit (code c) && hex_digit (code d) && is_hex s

-- The number of `unicode.ToUpper` for the characters that have an upper case in ASCII.
abbrev upper_code : ℕ → ℕ
upper_code n =
    if between 97 122 n then n - 32 else if n == 305 then 73 else if n == 383 then 83 else n

-- Whether `strings.ToUpper(s)` is a given text in ASCII.
abbrev pub upper_is : String → String → Bool
upper_is empty empty = true
upper_is (c ∺ s) (d ∺ t) = upper_code (code c) == code d && upper_is s t
upper_is _ _ = false
