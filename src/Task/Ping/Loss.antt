-- ===== src/Task/Ping/Loss.antt =====
-- The loss that parseH3COutput of task/ping.go reads, and the results of all platforms.
use zabbix_ddl_monitor.Base.{
  ℕ, ◌+◌, ◌-◌, ◌*◌, ◌/◌, ◌^◌, ◌≤◌, ◌<◌, Bool, true, false, String, Option, none, some, List, [],
  ◌∷◌, ◌++◌, str_eq, ◌&&◌, ◌||◌, length, ◌≡◌, ◌⊎◌, inl, inr, refl, arith, leb, if◌then◌else◌,
  if_both, if_cases,
}
use native.Mathlib.Nat.{div-lt_iff_lt-mul, one-le-pow}
use zabbix_ddl_monitor.Base.Text.{Text, codes, digits, split_lines, contains, trim_space}
use zabbix_ddl_monitor.Task.Ping.Output.{
  PingData, no_data, rest_of, with_loss, parse_cisco, parse_nxos, parse_huawei, parse_generic,
}
use zabbix_ddl_monitor.Task.Ping.Output.H3c.{
  find_loss, loss_of, number_of, to_percent, whole_from, gap_bits, float_limit, first_rtt,
  h3c_number, h3c_match, scan_h3c, parse_h3c, parse_platform,
}
use zabbix_ddl_monitor.Task.Ping.Verdicts.{
  IsRated, IsSound, parse_cisco-IsSound, parse_nxos-IsSound, parse_huawei-IsSound,
  parse_generic-IsSound, first_rtt-keeps, failed-IsSound,
}

pow-pos : (k : ℕ) → 0 < 10 ^ k
pow-pos k = one-le-pow k 10 (omega arith)

to_percent-le : (n k : ℕ) → to_percent n k ≤ 100
unfolding to_percent
to_percent-le n k =
    if_cases (λ t. t ≤ 100) (leb (100 * 10 ^ k) n) 100 (whole_from n (10 ^ k) (n / 10 ^ k))
      (λ e. omega arith)
      (λ e.
        let whole : n / 10 ^ k < 100 = (div-lt_iff_lt-mul (pow-pos k)).1 (ground (arith, e)) in
        if_both (λ t. t ≤ 100)
          (leb ((((n / 10 ^ k) + 1) * 10 ^ k - n) * 2 ^ gap_bits (n / 10 ^ k)) (10 ^ k))
          (n / 10 ^ k + 1) (n / 10 ^ k) (omega (arith, whole)) (omega (arith, whole)))

-- The loss is there, in percent.
abbrev pub IsPercent : Option ℕ → Type 0
IsPercent none = Unit {0}
IsPercent (some n) = n ≤ 100

loss_of-IsPercent : (m : Text × Text) → IsPercent (loss_of m)
unfolding loss_of
loss_of-IsPercent m = by_digits (digits (m.0 ++ m.1) 0)
  where
    by_digits : (o : Option ℕ) → IsPercent (number_of o (length m.1))
    by_digits none = tt
    by_digits (some n) =
        if_both IsPercent (leb (float_limit * 10 ^ length m.1) n) none
          (some (to_percent n (length m.1))) tt (to_percent-le n (length m.1))

-- A result with the loss of a summary line, or a failure without numbers.
abbrev pub IsRead : Bool × PingData → Type 0
IsRead r =
    ((r.0 ≡ true) × ((n : ℕ) × (n ≤ 100) × (r.1.packet_loss ≡ some n)))
    ⊎ ((r.0 ≡ false) × (r.1.packet_loss ≡ none))

h3c_number-IsRead :
    (o : Option ℕ) (all : List Text) → IsPercent o → IsRead (h3c_number o all no_data)
h3c_number-IsRead none all b = inr (refl, refl)
h3c_number-IsRead (some n) all b = inl (refl, (n, b, (first_rtt-keeps all (with_loss n no_data)).1))

h3c_match-IsRead :
    (o : Option (Text × Text)) (rest : Bool × PingData) (all : List Text)
    → IsRead rest
    → IsRead (h3c_match o rest all no_data)
h3c_match-IsRead none rest all h = h
h3c_match-IsRead (some m) rest all h = h3c_number-IsRead (loss_of m) all (loss_of-IsPercent m)

scan_h3c-IsRead : (lines all : List Text) → IsRead (scan_h3c lines all no_data)
unfolding scan_h3c
scan_h3c-IsRead [] all = inr (refl, refl)
scan_h3c-IsRead (line ∷ lines) all =
    h3c_match-IsRead (find_loss line) (scan_h3c lines all no_data) all (scan_h3c-IsRead lines all)

-- The H3C parser writes a packet loss from 0 to 100 exactly when it succeeds.
pub parse_h3c-IsRead : (lines : List Text) → IsRead (parse_h3c lines no_data)
unfolding parse_h3c
parse_h3c-IsRead lines = scan_h3c-IsRead lines lines

first_rtt-status : (lines : List Text) (d : PingData) → (first_rtt lines d).status ≡ d.status
unfolding first_rtt
first_rtt-status [] d = refl
first_rtt-status (line ∷ lines) d =
    if_both (λ (e : PingData). e.status ≡ d.status)
      (contains (codes "round-trip") line && contains (codes "min/avg/max") line)
      (record d { rtt_info = some (trim_space line) }) (first_rtt lines d) refl
      (first_rtt-status lines d)

h3c_number-IsSound :
    (o : Option ℕ) (all : List Text) → IsPercent o → IsSound (h3c_number o all no_data)
h3c_number-IsSound none all b = failed-IsSound no_data (inl (refl, refl))
h3c_number-IsSound (some n) all b =
    let kept = first_rtt-keeps all (with_loss n no_data) in
    (refl, inr (rest_of n, n, kept.0, kept.1, omega (arith, b)))

scan_h3c-IsSound : (lines all : List Text) → IsSound (scan_h3c lines all no_data)
unfolding scan_h3c
scan_h3c-IsSound [] all = failed-IsSound no_data (inl (refl, refl))
scan_h3c-IsSound (line ∷ lines) all = by_match (find_loss line) (scan_h3c-IsSound lines all)
  where
    by_match :
        (o : Option (Text × Text))
        → IsSound (scan_h3c lines all no_data)
        → IsSound (h3c_match o (scan_h3c lines all no_data) all no_data)
    by_match none h = h
    by_match (some m) h = h3c_number-IsSound (loss_of m) all (loss_of-IsPercent m)

-- Whatever the device has sent and whatever the platform is, the status that is written is that of
-- the result, and success rate and packet loss are both there, adding up to 100 as ints, or both
-- missing.
pub parse_platform-IsSound : (p : String) (s : Text) → IsSound (parse_platform p s)
unfolding parse_platform parse_h3c
parse_platform-IsSound p s =
    let lines = split_lines s in
    let empty : IsRated no_data = inl (refl, refl) in
    if_both IsSound (str_eq p "cisco_iosxe" || str_eq p "cisco_iosxr") (parse_cisco lines no_data)
      (if str_eq p "cisco_nxos"
        then parse_nxos lines no_data
        else if str_eq p "huawei_vrp"
        then parse_huawei lines no_data
        else if str_eq p "h3c_comware"
        then scan_h3c lines lines no_data
        else parse_generic s no_data)
      (parse_cisco-IsSound lines no_data empty)
      (if_both IsSound (str_eq p "cisco_nxos") (parse_nxos lines no_data)
        (if str_eq p "huawei_vrp"
          then parse_huawei lines no_data
          else if str_eq p "h3c_comware"
          then scan_h3c lines lines no_data
          else parse_generic s no_data)
        (parse_nxos-IsSound lines no_data empty)
        (if_both IsSound (str_eq p "huawei_vrp") (parse_huawei lines no_data)
          (if str_eq p "h3c_comware" then scan_h3c lines lines no_data else parse_generic s no_data)
          (parse_huawei-IsSound lines no_data empty)
          (if_both IsSound (str_eq p "h3c_comware") (scan_h3c lines lines no_data)
            (parse_generic s no_data) (scan_h3c-IsSound lines lines)
            (parse_generic-IsSound s no_data empty))))
