-- ===== src/Task/Ping/Verdicts.antt =====
-- What the parsers of task/ping.go write, for any output.
use zabbix_ddl_monitor.Base.{
  ℕ, ◌+◌, ◌%◌, ◌^◌, ◌<◌, Bool, true, false, Option, none, some, List, [], ◌∷◌, ◌&&◌, ◌≡◌, ◌⊎◌, inr,
  refl, arith, if◌then◌else◌, if_both,
}
use zabbix_ddl_monitor.Base.Text.{
  Text, codes, contains, trim_suffix, trim_space, fields, to_lower, atoi,
}
use zabbix_ddl_monitor.Base.Text.Numbers.{IsWord, atoi-IsWord}
use zabbix_ddl_monitor.Task.Ping.Output.{
  Status, check_finished, parse_failed, PingData, rest_of, finished, failed, with_loss, with_rate,
  note_rtt, read_into, cisco_part, cisco_rate, before_percent, parse_cisco, nxos_number, nxos_part,
  nxos_loss, packet_part, note_stats, parse_nxos, huawei_number, huawei_part, huawei_loss,
  percent_part, note_min, parse_huawei, has_any, success_patterns, fail_patterns, parse_generic,
}
use zabbix_ddl_monitor.Task.Ping.Output.H3c.{first_rtt}

-- Neither number is there, or both are and add up to 100 as ints.
abbrev pub IsRated : PingData → Type 0
IsRated d =
    ((d.success_rate ≡ none) × (d.packet_loss ≡ none))
    ⊎ ((r l : ℕ) × (d.success_rate ≡ some r) × (d.packet_loss ≡ some l) × ((r + l) % 2 ^ 64 ≡ 100))

-- The status goes with the result.
abbrev pub status_of : Bool → Status
status_of true = check_finished
status_of false = parse_failed

abbrev pub IsSound : Bool × PingData → Type 0
IsSound r = (r.1.status ≡ some (status_of r.0)) × IsRated r.1

finished-IsSound : (d : PingData) → IsRated d → IsSound (finished d)
finished-IsSound d h = (refl, h)

pub failed-IsSound : (d : PingData) → IsRated d → IsSound (failed d)
failed-IsSound d h = (refl, h)

pub with_loss-IsRated : (n : ℕ) (d : PingData) → n < 2 ^ 64 → IsRated (with_loss n d)
with_loss-IsRated n d b = inr (rest_of n, n, refl, refl, omega arith)

with_rate-IsRated : (n : ℕ) (d : PingData) → n < 2 ^ 64 → IsRated (with_rate n d)
with_rate-IsRated n d b = inr (n, rest_of n, refl, refl, omega arith)

read_into-IsSound :
    (write : ℕ → PingData → PingData) (o : Option ℕ) (d : PingData)
    → ((n : ℕ) → n < 2 ^ 64 → IsRated (write n d))
    → IsWord o
    → IsRated d
    → IsSound (read_into write o d)
read_into-IsSound write none d f w h = failed-IsSound d h
read_into-IsSound write (some n) d f w h = (refl, f n w)

note_rtt-IsRated : (line : Text) (d : PingData) → IsRated d → IsRated (note_rtt line d)
note_rtt-IsRated line d h =
    if_both IsRated (contains (codes "round-trip") line && contains (codes "min/avg/max") line)
      (record d { rtt_info = some line }) d h h

note_stats-IsRated : (line : Text) (d : PingData) → IsRated d → IsRated (note_stats line d)
note_stats-IsRated line d h =
    if_both IsRated
      (contains (codes "packets transmitted") line && contains (codes "packets received") line)
      (record d { packet_stats = some line }) d h h

note_min-IsRated : (line : Text) (d : PingData) → IsRated d → IsRated (note_min line d)
note_min-IsRated line d h =
    if_both IsRated (contains (codes "min/avg/max") line) (record d { rtt_info = some line }) d h h

cisco_part-IsSound : (o : Option Text) (d : PingData) → IsRated d → IsSound (cisco_part o d)
cisco_part-IsSound none d h = finished-IsSound d h
cisco_part-IsSound (some p) d h =
    read_into-IsSound with_rate (atoi p) d (λ n b. with_rate-IsRated n d b) (atoi-IsWord p) h

cisco_rate-IsSound : (line : Text) (d : PingData) → IsRated d → IsSound (cisco_rate line d)
unfolding cisco_rate
cisco_rate-IsSound line d h =
    if_both IsSound (contains (codes "100 percent") line) (finished (with_rate 100 d))
      (if contains (codes "0 percent") line
        then finished (with_rate 0 d)
        else cisco_part (before_percent (fields line)) d)
      (refl, with_rate-IsRated 100 d (omega arith))
      (if_both IsSound (contains (codes "0 percent") line) (finished (with_rate 0 d))
        (cisco_part (before_percent (fields line)) d) (refl, with_rate-IsRated 0 d (omega arith))
        (cisco_part-IsSound (before_percent (fields line)) d h))

pub parse_cisco-IsSound :
    (lines : List Text) (d : PingData) → IsRated d → IsSound (parse_cisco lines d)
unfolding parse_cisco
parse_cisco-IsSound [] d h = failed-IsSound d h
parse_cisco-IsSound (raw ∷ lines) d h =
    let line = trim_space raw in
    if_both IsSound (contains (codes "Success rate is") line) (cisco_rate line d)
      (parse_cisco lines (note_rtt line d)) (cisco_rate-IsSound line d h)
      (parse_cisco-IsSound lines (note_rtt line d) (note_rtt-IsRated line d h))

-- A test whose two branches are the two fixed results of a line, before what the number gives.
choose-IsSound :
    (b c : Bool) (x y : PingData) (z : Bool × PingData)
    → IsRated x
    → IsRated y
    → IsSound z
    → IsSound (if b then finished x else if c then finished y else z)
choose-IsSound true c x y z p q r = finished-IsSound x p
choose-IsSound false true x y z p q r = finished-IsSound y q
choose-IsSound false false x y z p q r = r

nxos_part-IsSound : (o : Option Text) (d : PingData) → IsRated d → IsSound (nxos_part o d)
nxos_part-IsSound none d h = finished-IsSound d h
nxos_part-IsSound (some p) d h = by_number (trim_suffix (codes "%") p)
  where
    by_number : (s : Text) → IsSound (nxos_number s d)
    by_number [] = finished-IsSound d h
    by_number (c ∷ s) =
        let t = trim_suffix (codes ".00") (c ∷ s) in
        read_into-IsSound with_loss (atoi t) d (λ n b. with_loss-IsRated n d b) (atoi-IsWord t) h

pub parse_nxos-IsSound :
    (lines : List Text) (d : PingData) → IsRated d → IsSound (parse_nxos lines d)
unfolding parse_nxos nxos_loss
parse_nxos-IsSound [] d h = failed-IsSound d h
parse_nxos-IsSound (raw ∷ lines) d h =
    let line = trim_space raw in
    let noted = note_stats line (note_rtt line d) in
    if_both IsSound (contains (codes "packet loss") line) (nxos_loss line d)
      (parse_nxos lines noted)
      (choose-IsSound (contains (codes "0.00% packet loss") line)
        (contains (codes "100.00% packet loss") line) (with_loss 0 d) (with_loss 100 d)
        (nxos_part (packet_part (fields line)) d) (with_loss-IsRated 0 d (omega arith))
        (with_loss-IsRated 100 d (omega arith)) (nxos_part-IsSound (packet_part (fields line)) d h))
      (parse_nxos-IsSound lines noted
        (note_stats-IsRated line (note_rtt line d) (note_rtt-IsRated line d h)))

huawei_part-IsSound : (o : Option Text) (d : PingData) → IsRated d → IsSound (huawei_part o d)
huawei_part-IsSound none d h = finished-IsSound d h
huawei_part-IsSound (some p) d h = by_number (trim_suffix (codes "%") p)
  where
    by_number : (s : Text) → IsSound (huawei_number s d)
    by_number [] = finished-IsSound d h
    by_number (c ∷ s) =
        read_into-IsSound with_loss (atoi (c ∷ s)) d (λ n b. with_loss-IsRated n d b)
          (atoi-IsWord (c ∷ s)) h

pub parse_huawei-IsSound :
    (lines : List Text) (d : PingData) → IsRated d → IsSound (parse_huawei lines d)
unfolding parse_huawei huawei_loss
parse_huawei-IsSound [] d h = failed-IsSound d h
parse_huawei-IsSound (raw ∷ lines) d h =
    let line = trim_space raw in
    if_both IsSound (contains (codes "request time out") (to_lower line))
      (finished (with_loss 100 d))
      (if contains (codes "packet loss") line
        then huawei_loss line d
        else parse_huawei lines (note_min line d))
      (finished-IsSound (with_loss 100 d) (with_loss-IsRated 100 d (omega arith)))
      (if_both IsSound (contains (codes "packet loss") line) (huawei_loss line d)
        (parse_huawei lines (note_min line d))
        (choose-IsSound (contains (codes "100% packet loss") line)
          (contains (codes "0% packet loss") line) (with_loss 100 d) (with_loss 0 d)
          (huawei_part (percent_part (fields line)) d) (with_loss-IsRated 100 d (omega arith))
          (with_loss-IsRated 0 d (omega arith))
          (huawei_part-IsSound (percent_part (fields line)) d h))
        (parse_huawei-IsSound lines (note_min line d) (note_min-IsRated line d h)))

pub parse_generic-IsSound : (s : Text) (d : PingData) → IsRated d → IsSound (parse_generic s d)
unfolding parse_generic
parse_generic-IsSound s d h =
    choose-IsSound (has_any success_patterns (to_lower s)) (has_any fail_patterns (to_lower s))
      (with_rate 100 d) (with_rate 0 d) (failed d) (with_rate-IsRated 100 d (omega arith))
      (with_rate-IsRated 0 d (omega arith)) (failed-IsSound d h)

-- The RTT loop leaves the numbers alone.
pub first_rtt-keeps :
    (lines : List Text) (d : PingData)
    → ((first_rtt lines d).success_rate ≡ d.success_rate)
      × ((first_rtt lines d).packet_loss ≡ d.packet_loss)
unfolding first_rtt
first_rtt-keeps [] d = (refl, refl)
first_rtt-keeps (line ∷ lines) d =
    if_both (λ (e : PingData). (e.success_rate ≡ d.success_rate) × (e.packet_loss ≡ d.packet_loss))
      (contains (codes "round-trip") line && contains (codes "min/avg/max") line)
      (record d { rtt_info = some (trim_space line) }) (first_rtt lines d) (refl, refl)
      (first_rtt-keeps lines d)
