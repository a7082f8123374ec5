-- ===== src/Task/Ping/Output.antt =====
-- task/ping.go: ParseOutput and the parsers of the vendors' output. The keys of result.Data that the
-- parsers write are fields here; `none` is a key that is not in the map.
pub mod H3c
use zabbix_ddl_monitor.Base.{
  ℕ, ◌+◌, ◌-◌, ◌%◌, ◌^◌, Bool, true, false, ◌&&◌, ◌||◌, String, Option, none, some, List, [], ◌∷◌,
  str_eq, if◌then◌else◌,
}
use zabbix_ddl_monitor.Base.Text.{
  Text, codes, contains, text_eq, is_empty_text, has_suffix, trim_suffix, split_lines, trim_space,
  fields, to_lower, atoi,
}

pub data Status : Type 0 where
  check_finished parse_failed : Status

pub record PingData : Type 0 where
  pub success_rate : Option ℕ
  pub packet_loss : Option ℕ
  pub status : Option Status
  pub rtt_info : Option Text
  pub packet_stats : Option Text

abbrev pub no_data : PingData
no_data = record {
  success_rate = none;
  packet_loss = none;
  status = none;
  rtt_info = none;
  packet_stats = none;
}

-- 100 - n in an int.
abbrev pub rest_of : ℕ → ℕ
rest_of n = (100 + (2 ^ 64 - n)) % 2 ^ 64

-- What a parser returns, with the status that it has written.
abbrev pub finished : PingData → Bool × PingData
finished d = (true, record d { status = some check_finished })

abbrev pub failed : PingData → Bool × PingData
failed d = (false, record d { status = some parse_failed })

abbrev pub with_loss : ℕ → PingData → PingData
with_loss n d = record d { packet_loss = some n; success_rate = some (rest_of n) }

abbrev pub with_rate : ℕ → PingData → PingData
with_rate n d = record d { success_rate = some n; packet_loss = some (rest_of n) }

abbrev pub note_rtt : Text → PingData → PingData
note_rtt line d =
    if contains (codes "round-trip") line && contains (codes "min/avg/max") line
    then record d { rtt_info = some line }
    else d

-- A number that Atoi reads is written; one that it does not read is a failure.
abbrev pub read_into : (ℕ → PingData → PingData) → Option ℕ → PingData → Bool × PingData
read_into write none d = failed d
read_into write (some n) d = finished (write n d)

-- parseCiscoOutput: the part before the first "percent".
unfoldable pub before_percent : List Text → Option Text
before_percent [] = none
before_percent (p ∷ []) = none
before_percent (p ∷ q ∷ parts) =
    let more = before_percent (q ∷ parts) in if text_eq q (codes "percent") then some p else more

abbrev pub cisco_part : Option Text → PingData → Bool × PingData
cisco_part none d = finished d
cisco_part (some p) d = read_into with_rate (atoi p) d

unfoldable pub cisco_rate : Text → PingData → Bool × PingData
cisco_rate line d =
    if contains (codes "100 percent") line
    then finished (with_rate 100 d)
    else if contains (codes "0 percent") line
    then finished (with_rate 0 d)
    else cisco_part (before_percent (fields line)) d

unfoldable pub parse_cisco : List Text → PingData → Bool × PingData
parse_cisco [] d = failed d
parse_cisco (raw ∷ lines) d =
    let line = trim_space raw in
    let rest = parse_cisco lines (note_rtt line d) in
    if contains (codes "Success rate is") line then cisco_rate line d else rest

-- parseCiscoNxosOutput: the first part that ends in "%" and contains "packet".
unfoldable pub packet_part : List Text → Option Text
packet_part [] = none
packet_part (p ∷ parts) =
    let more = packet_part parts in
    if has_suffix (codes "%") p && contains (codes "packet") p then some p else more

abbrev pub nxos_number : Text → PingData → Bool × PingData
nxos_number [] d = finished d
nxos_number (c ∷ s) d = read_into with_loss (atoi (trim_suffix (codes ".00") (c ∷ s))) d

abbrev pub nxos_part : Option Text → PingData → Bool × PingData
nxos_part none d = finished d
nxos_part (some p) d = nxos_number (trim_suffix (codes "%") p) d

unfoldable pub nxos_loss : Text → PingData → Bool × PingData
nxos_loss line d =
    if contains (codes "0.00% packet loss") line
    then finished (with_loss 0 d)
    else if contains (codes "100.00% packet loss") line
    then finished (with_loss 100 d)
    else nxos_part (packet_part (fields line)) d

abbrev pub note_stats : Text → PingData → PingData
note_stats line d =
    if contains (codes "packets transmitted") line && contains (codes "packets received") line
    then record d { packet_stats = some line }
    else d

unfoldable pub parse_nxos : List Text → PingData → Bool × PingData
parse_nxos [] d = failed d
parse_nxos (raw ∷ lines) d =
    let line = trim_space raw in
    let rest = parse_nxos lines (note_stats line (note_rtt line d)) in
    if contains (codes "packet loss") line then nxos_loss line d else rest

-- parseHuaweiOutput: the first part that ends in "%".
unfoldable pub percent_part : List Text → Option Text
percent_part [] = none
percent_part (p ∷ parts) =
    let more = percent_part parts in if has_suffix (codes "%") p then some p else more

abbrev pub huawei_number : Text → PingData → Bool × PingData
huawei_number [] d = finished d
huawei_number (c ∷ s) d = read_into with_loss (atoi (c ∷ s)) d

abbrev pub huawei_part : Option Text → PingData → Bool × PingData
huawei_part none d = finished d
huawei_part (some p) d = huawei_number (trim_suffix (codes "%") p) d

unfoldable pub huawei_loss : Text → PingData → Bool × PingData
huawei_loss line d =
    if contains (codes "100% packet loss") line
    then finished (with_loss 100 d)
    else if contains (codes "0% packet loss") line
    then finished (with_loss 0 d)
    else huawei_part (percent_part (fields line)) d

abbrev pub note_min : Text → PingData → PingData
note_min line d =
    if contains (codes "min/avg/max") line then record d { rtt_info = some line } else d

unfoldable pub parse_huawei : List Text → PingData → Bool × PingData
parse_huawei [] d = failed d
parse_huawei (raw ∷ lines) d =
    let line = trim_space raw in
    let rest = parse_huawei lines (note_min line d) in
    if contains (codes "request time out") (to_lower line)
    then finished (with_loss 100 d)
    else if contains (codes "packet loss") line
    then huawei_loss line d
    else rest

-- parseGenericOutput
unfoldable pub has_any : List Text → Text → Bool
has_any [] s = false
has_any (p ∷ ps) s = let rest = has_any ps s in if contains p s then true else rest

abbrev pub success_patterns : List Text
success_patterns =
    codes "0% packet loss"
    ∷ codes "0% loss"
    ∷ codes "100 percent"
    ∷ codes "success rate is 100"
    ∷ []

abbrev pub fail_patterns : List Text
fail_patterns =
    codes "100% packet loss"
    ∷ codes "100% loss"
    ∷ codes "0 percent"
    ∷ codes "destination host unreachable"
    ∷ codes "request timeout"
    ∷ codes "no route to host"
    ∷ []

unfoldable pub parse_generic : Text → PingData → Bool × PingData
parse_generic output d =
    let lower = to_lower output in
    if has_any success_patterns lower
    then finished (with_rate 100 d)
    else if has_any fail_patterns lower
    then finished (with_rate 0 d)
    else failed d
