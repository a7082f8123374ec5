-- ===== src/Task/Ping/Output/H3c.antt =====
-- task/ping.go: parseH3COutput, with the regular expression (\d+(?:\.\d+)?)\s*%\s*packet\s*loss, and
-- ParseOutput. A match begins at the leftmost place where there is one and takes all the digits it can;
-- giving digits back never helps, since what follows them begins with no digit.
use zabbix_ddl_monitor.Base.{
  ℕ, ◌+◌, ◌-◌, ◌*◌, ◌/◌, ◌^◌, Bool, true, false, ◌&&◌, ◌||◌, String, Option, none, some, List, [],
  ◌∷◌, ◌++◌, length, ltb, leb, ◌==◌, str_eq, if◌then◌else◌,
}
use zabbix_ddl_monitor.Base.Map.{Map, lookup}
use zabbix_ddl_monitor.Base.Text.{Text, codes, is_digit, contains, split_lines, trim_space, digits}
use zabbix_ddl_monitor.Task.Ping.{Value, text}
use zabbix_ddl_monitor.Task.Ping.Output.{
  PingData, no_data, finished, failed, with_loss, parse_cisco, parse_nxos, parse_huawei,
  parse_generic,
}

-- \s of the regular expression.
abbrev pub is_blank : ℕ → Bool
is_blank c = (c == 9) || ((c == 10) || ((c == 12) || ((c == 13) || (c == 32))))

abbrev pub skip_blanks : Text → Text
skip_blanks [] = []
skip_blanks (c ∷ s) = let rest = skip_blanks s in if is_blank c then rest else c ∷ s

-- \d*, and what comes after it.
abbrev pub leading_digits : Text → Text
leading_digits [] = []
leading_digits (c ∷ s) = let rest = leading_digits s in if is_digit c then c ∷ rest else []

abbrev pub after_digits : Text → Text
after_digits [] = []
after_digits (c ∷ s) = let rest = after_digits s in if is_digit c then rest else c ∷ s

-- (?:\.\d+)?
abbrev pub fraction : Text → Text
fraction [] = []
fraction (c ∷ s) = if c == b'.' then leading_digits s else []

abbrev drop_fraction : Text → Text → Text
drop_fraction [] s = s
drop_fraction (d ∷ ds) [] = []
drop_fraction (d ∷ ds) (c ∷ s) = after_digits s

abbrev pub after_fraction : Text → Text
after_fraction s = drop_fraction (fraction s) s

-- A fixed word after blanks, and what comes after it.
abbrev pub strip : Text → Text → Option Text
strip [] s = some s
strip (c ∷ p) [] = none
strip (c ∷ p) (d ∷ s) = let rest = strip p s in if c == d then rest else none

abbrev pub word_then : Text → Option Text → Option Text
word_then p none = none
word_then p (some s) = strip p (skip_blanks s)

-- \s*%\s*packet\s*loss
abbrev pub is_some : Option Text → Bool
is_some none = false
is_some (some s) = true

abbrev pub ends_loss : Text → Bool
ends_loss s =
    is_some (word_then (codes "loss") (word_then (codes "packet") (word_then (codes "%") (some s))))

-- The captured number: the digits before the point and those after it.
abbrev match_from : Text → Text → Option (Text × Text)
match_from [] s = none
match_from (d ∷ ds) s = if ends_loss (after_fraction s) then some (d ∷ ds, fraction s) else none

unfoldable pub match_here : Text → Option (Text × Text)
match_here s = match_from (leading_digits s) (after_digits s)

abbrev or_later : Option (Text × Text) → Option (Text × Text) → Option (Text × Text)
or_later none later = later
or_later (some m) later = some m

unfoldable pub find_loss : Text → Option (Text × Text)
find_loss [] = none
find_loss (c ∷ s) = let later = find_loss s in or_later (match_here (c ∷ s)) later

-- ParseFloat reads the decimal `n / 10 ^ k` and rounds it to the nearest float64; from this bound on
-- it is an error.
abbrev pub float_limit : ℕ
float_limit = 2 ^ 1024 - 2 ^ 970

-- Between `w` and `w + 1`, what is at most 2 ^ -gap_bits w below `w + 1` is rounded to `w + 1`.
abbrev pub gap_bits : ℕ → ℕ
gap_bits w =
    if ltb w 1
    then 54
    else if ltb w 2
    then 53
    else if ltb w 4
    then 52
    else if ltb w 8
    then 51
    else if ltb w 16
    then 50
    else if ltb w 32
    then 49
    else if ltb w 64
    then 48
    else 47

-- int(min(100, n / 10 ^ k)), where a decimal that is rounded up to a whole number counts as this.
abbrev pub whole_from : ℕ → ℕ → ℕ → ℕ
whole_from n unit w = if leb (((w + 1) * unit - n) * 2 ^ gap_bits w) unit then w + 1 else w

unfoldable pub to_percent : ℕ → ℕ → ℕ
to_percent n k = if leb (100 * 10 ^ k) n then 100 else whole_from n (10 ^ k) (n / 10 ^ k)

abbrev pub number_of : Option ℕ → ℕ → Option ℕ
number_of none k = none
number_of (some n) k = if leb (float_limit * 10 ^ k) n then none else some (to_percent n k)

-- The packet loss of a match; `none` for the error of ParseFloat.
unfoldable pub loss_of : Text × Text → Option ℕ
loss_of (whole, part) = number_of (digits (whole ++ part) 0) (length part)

-- The second loop.
unfoldable pub first_rtt : List Text → PingData → PingData
first_rtt [] d = d
first_rtt (line ∷ lines) d =
    let rest = first_rtt lines d in
    if contains (codes "round-trip") line && contains (codes "min/avg/max") line
    then record d { rtt_info = some (trim_space line) }
    else rest

abbrev pub h3c_number : Option ℕ → List Text → PingData → Bool × PingData
h3c_number none all d = failed d
h3c_number (some n) all d = finished (first_rtt all (with_loss n d))

abbrev pub h3c_match :
    Option (Text × Text) → Bool × PingData → List Text → PingData → Bool × PingData
h3c_match none rest all d = rest
h3c_match (some m) rest all d = h3c_number (loss_of m) all d

-- The first loop; `all` is the whole output.
unfoldable pub scan_h3c : List Text → List Text → PingData → Bool × PingData
scan_h3c [] all d = failed d
scan_h3c (line ∷ lines) all d =
    let rest = scan_h3c lines all d in h3c_match (find_loss line) rest all d

unfoldable pub parse_h3c : List Text → PingData → Bool × PingData
parse_h3c lines d = scan_h3c lines lines d

-- The switch of ParseOutput on ctx.Platform.
unfoldable pub parse_platform : String → Text → Bool × PingData
parse_platform p output =
    if str_eq p "cisco_iosxe" || str_eq p "cisco_iosxr"
    then parse_cisco (split_lines output) no_data
    else if str_eq p "cisco_nxos"
    then parse_nxos (split_lines output) no_data
    else if str_eq p "huawei_vrp"
    then parse_huawei (split_lines output) no_data
    else if str_eq p "h3c_comware"
    then parse_h3c (split_lines output) no_data
    else parse_generic output no_data

-- What the device has returned: a string or the bytes of one, or something else.
pub data Raw : Type 0 where
  output : Text → Raw
  not_text : Raw

pub data ParseResult : Type 0 where
  parsed : Bool → PingData → ParseResult
  unsupported_output target_missing : ParseResult

abbrev pub parse_for : String → Text → Option Value → ParseResult
parse_for p s (some (text ip)) = parsed (parse_platform p s).0 (parse_platform p s).1
parse_for p s _ = target_missing

-- ParseOutput, for a platform and the parameters. The two errors come with the status parse_failed.
unfoldable pub parse_output : String → Map Value → Raw → ParseResult
parse_output p ps not_text = unsupported_output
parse_output p ps (output s) = parse_for p s (lookup "target_ip" ps)
