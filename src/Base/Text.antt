-- ===== src/Base/Text.antt =====
-- Texts as lists of character codes, and what the code uses of Go's strings and strconv. Letters and
-- white space are those of ASCII.
pub mod Search
pub mod Numbers
use Prim.Native.Char.{code}
use Prim.Native.Nat.{ℕ, zero, suc, ◌+◌, ◌-◌, ◌*◌, ◌/◌, ◌%◌, ◌^◌}
use Prim.Native.String.{String}
use mathlib.Core.Bool.{Bool, true, false, ◌&&◌, ◌||◌}
use mathlib.Core.Option.{Option, none, some}
use mathlib.Core.List.{List, [], ◌∷◌, map}
use zabbix_ddl_monitor.Base.Tests.{ltb, leb, ◌==◌, if◌then◌else◌}

abbrev pub Text : Type 0
Text = List ℕ

abbrev pub codes : String → Text
codes String.[] = []
codes (String.◌∷◌ c s) = code c ∷ codes s

abbrev pub is_space : ℕ → Bool
is_space c = (leb 9 c && leb c 13) || (c == 32)

abbrev pub is_digit : ℕ → Bool
is_digit c = leb b'0' c && leb c b'9'

abbrev pub is_empty_text : Text → Bool
is_empty_text [] = true
is_empty_text (c ∷ s) = false

abbrev pub text_eq : Text → Text → Bool
text_eq [] [] = true
text_eq [] (d ∷ t) = false
text_eq (c ∷ s) [] = false
text_eq (c ∷ s) (d ∷ t) = let rest = text_eq s t in if c == d then rest else false

-- strings.HasPrefix(s, p) and strings.Contains(s, p), the pattern first.
abbrev pub has_prefix : Text → Text → Bool
has_prefix [] s = true
has_prefix (c ∷ p) [] = false
has_prefix (c ∷ p) (d ∷ s) = let rest = has_prefix p s in if c == d then rest else false

unfoldable pub contains : Text → Text → Bool
contains p [] = is_empty_text p
contains p (c ∷ s) = let rest = contains p s in if has_prefix p (c ∷ s) then true else rest

-- strings.HasSuffix and strings.TrimSuffix, for a suffix that is not empty.
unfoldable pub has_suffix : Text → Text → Bool
has_suffix p [] = false
has_suffix p (c ∷ s) = let rest = has_suffix p s in if text_eq p (c ∷ s) then true else rest

unfoldable pub trim_suffix : Text → Text → Text
trim_suffix p [] = []
trim_suffix p (c ∷ s) = let rest = trim_suffix p s in if text_eq p (c ∷ s) then [] else c ∷ rest

-- strings.Split(s, "\n")
abbrev pub prepend : ℕ → List Text → List Text
prepend c [] = (c ∷ []) ∷ []
prepend c (s ∷ rest) = (c ∷ s) ∷ rest

unfoldable pub split_lines : Text → List Text
split_lines [] = [] ∷ []
split_lines (c ∷ s) = let rest = split_lines s in if c == 10 then [] ∷ rest else prepend c rest

-- strings.TrimSpace
unfoldable pub trim_left : Text → Text
trim_left [] = []
trim_left (c ∷ s) = let rest = trim_left s in if is_space c then rest else c ∷ s

unfoldable pub trim_right : Text → Text
trim_right [] = []
trim_right (c ∷ s) =
    let rest = trim_right s in if is_space c && is_empty_text rest then [] else c ∷ rest

unfoldable pub trim_space : Text → Text
unfolding trim_left trim_right
trim_space s = trim_right (trim_left s)

-- strings.Fields
abbrev starts_word : Text → Bool
starts_word [] = false
starts_word (c ∷ s) = if is_space c then false else true

unfoldable pub fields : Text → List Text
fields [] = []
fields (c ∷ s) =
    let rest = fields s in
    if is_space c then rest else if starts_word s then prepend c rest else (c ∷ []) ∷ rest

-- strings.ToLower
unfoldable pub to_lower : Text → Text
to_lower = map (λ c. if leb b'A' c && leb c b'Z' then c + 32 else c)

-- The value of decimal digits; nothing for any other character.
unfoldable pub digits : Text → ℕ → Option ℕ
digits [] value = some value
digits (c ∷ s) value =
    let rest = digits s (value * 10 + (c - b'0')) in if is_digit c then rest else none

abbrev pub unsigned : Text → Option ℕ
unsigned [] = none
unsigned (c ∷ s) = digits (c ∷ s) 0

-- strconv.Atoi, to a pattern of 64 bits.
abbrev in_range : ℕ → Option ℕ → Option ℕ
in_range bound none = none
in_range bound (some n) = if leb n bound then some n else none

abbrev negated : Option ℕ → Option ℕ
negated none = none
negated (some n) = some ((2 ^ 64 - n) % 2 ^ 64)

unfoldable pub atoi : Text → Option ℕ
unfolding digits
atoi [] = none
atoi (c ∷ s) =
    if c == b'-'
    then negated (in_range (2 ^ 63) (unsigned s))
    else if c == b'+'
    then in_range (2 ^ 63 - 1) (unsigned s)
    else in_range (2 ^ 63 - 1) (unsigned (c ∷ s))

-- fmt.Sprintf("%d") of a number below 10 ^ fuel.
unfoldable pub decimal_from : ℕ → ℕ → Text → Text
decimal_from zero n rest = rest
decimal_from (suc fuel) n rest =
    let shorter = decimal_from fuel (n / 10) ((b'0' + n % 10) ∷ rest) in
    if leb 10 n then shorter else (b'0' + n) ∷ rest

unfoldable pub decimal : ℕ → Text
unfolding decimal_from
decimal n = decimal_from 20 n []

-- The same of a pattern of 64 bits.
unfoldable pub decimal64 : ℕ → Text
unfolding decimal
decimal64 n = if ltb n (2 ^ 63) then decimal n else b'-' ∷ decimal (2 ^ 64 - n)
