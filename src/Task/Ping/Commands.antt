-- ===== src/Task/Ping/Commands.antt =====
-- The commands that task/ping.go builds from checked parameters.
use zabbix_ddl_monitor.Base.{
  ℕ, Bool, true, false, ◌&&◌, ◌||◌, String, Option, none, some, str_eq, ◌≡◌, refl, arith,
  if◌then◌else◌,
}
use zabbix_ddl_monitor.Base.Map.{Map, lookup, insert, lookup-insert}
use zabbix_ddl_monitor.Base.Text.{Text}
use zabbix_ddl_monitor.Task.Ping.{
  Value, text, int, duration, other, ParamError, check_target, check_repeat, check_timeout,
  validate_params, Vendor, cisco, huawei, h3c, unknown, vendor, BuildResult, built, commands_for,
  events_for, build_command, build_for, build_with, repeat_of, timeout_of, password_of,
}

abbrev pub is_built : BuildResult → Bool
is_built (built c) = true
is_built r = false

abbrev pub is_known : Vendor → Bool
is_known unknown = false
is_known v = true

commands_built :
    (v : Vendor) (ip : Text) (r t : ℕ) (pw : Text)
    → is_built (commands_for v ip r t pw) ≡ is_known v
commands_built cisco ip r t pw = refl
commands_built huawei ip r t pw = refl
commands_built h3c ip r t pw = refl
commands_built unknown ip r t pw = refl

events_built :
    (v : Vendor) (ip : Text) (r t : ℕ) (pw : Text) → is_built (events_for v ip r t pw) ≡ is_known v
events_built cisco ip r t pw = refl
events_built huawei ip r t pw = refl
events_built h3c ip r t pw = refl
events_built unknown ip r t pw = refl

-- Checked values are of the right type.
repeat_checked :
    (o : Option Value) (next : Option ParamError)
    → check_repeat o next ≡ none
    → ((n : ℕ) × (repeat_of o ≡ some n)) × (next ≡ none)
repeat_checked none next e = ((5, refl), e)
repeat_checked (some (int n)) next e = ((n, refl), ground arith)
repeat_checked (some (text s)) next e = absurd (ground (arith, e))
repeat_checked (some (duration n)) next e = absurd (ground (arith, e))
repeat_checked (some other) next e = absurd (ground (arith, e))

timeout_checked :
    (o : Option Value) (next : Option ParamError)
    → check_timeout o next ≡ none
    → (n : ℕ) × (timeout_of o ≡ some n)
timeout_checked none next e = (2000000000, refl)
timeout_checked (some (duration n)) next e = (n, refl)
timeout_checked (some (text s)) next e = absurd (ground (arith, e))
timeout_checked (some (int n)) next e = absurd (ground (arith, e))
timeout_checked (some other) next e = absurd (ground (arith, e))

target_checked :
    (o : Option Value) (next : Option ParamError)
    → check_target o next ≡ none
    → ((ip : Text) × (o ≡ some (text ip))) × (next ≡ none)
target_checked none next e = absurd (ground (arith, e))
target_checked (some (text s)) next e = ((s, refl), ground arith)
target_checked (some (int n)) next e = absurd (ground (arith, e))
target_checked (some (duration n)) next e = absurd (ground (arith, e))
target_checked (some other) next e = absurd (ground (arith, e))

-- Parameters that ValidateParams accepts give a command for every platform and command type that are
-- known, and an error for every other one.
pub build_command_iff :
    (platform kind : String) (ps : Map Value)
    → validate_params ps ≡ none
    → is_built (build_command platform kind ps)
      ≡ ((str_eq kind "commands" || str_eq kind "interactive_event") && is_known (vendor platform))
unfolding validate_params build_command
build_command_iff platform kind ps e =
    let target = target_checked (lookup "target_ip" ps) _ e in
    let repeat = repeat_checked (lookup "repeat" ps) _ target.1 in
    let timeout = timeout_checked (lookup "timeout" ps) _ repeat.1 in
    let pw = password_of (lookup "enable_password" ps) in
    rw target.0.1 (
      rw repeat.0.1 (
        rw timeout.1 (
          ground (
            arith,
            commands_built (vendor platform) target.0.0 repeat.0.0 timeout.0 pw,
            events_built (vendor platform) target.0.0 repeat.0.0 timeout.0 pw,
          ))))

repeated :
    (key : String) (k : ℕ) (ps : Map Value)
    → lookup key (insert "repeat" (int k) ps)
      ≡ (if str_eq "repeat" key then some (int k) else lookup key ps)
repeated key k ps = lookup-insert "repeat" key (int k) ps

cisco_with :
    (platform : String) (ip : Text) (n m : ℕ) (o : Option ℕ) (pw : Text)
    → vendor platform ≡ cisco
    → build_with platform "commands" ip (some n) o pw
      ≡ build_with platform "commands" ip (some m) o pw
cisco_with platform ip n m none pw e = refl
cisco_with platform ip n m (some t) pw e = rw e refl

cisco_for :
    (platform : String) (n m : ℕ) (o : Option Value) (ps : Map Value)
    → vendor platform ≡ cisco
    → build_for platform "commands" o (insert "repeat" (int n) ps)
      ≡ build_for platform "commands" o (insert "repeat" (int m) ps)
cisco_for platform n m none ps e = refl
cisco_for platform n m (some (int k)) ps e = refl
cisco_for platform n m (some (duration k)) ps e = refl
cisco_for platform n m (some other) ps e = refl
cisco_for platform n m (some (text ip)) ps e =
    rw
      (
        repeated "repeat" n ps,
        repeated "repeat" m ps,
        repeated "timeout" n ps,
        repeated "timeout" m ps,
        repeated "enable_password" n ps,
        repeated "enable_password" m ps,
      )
      (cisco_with platform ip n m (timeout_of (lookup "timeout" ps))
        (password_of (lookup "enable_password" ps)) e)

-- The non-interactive command of a Cisco platform is the same for every repeat count.
pub cisco_ignores_repeat :
    (platform : String) (n m : ℕ) (ps : Map Value)
    → vendor platform ≡ cisco
    → build_command platform "commands" (insert "repeat" (int n) ps)
      ≡ build_command platform "commands" (insert "repeat" (int m) ps)
unfolding build_command
cisco_ignores_repeat platform n m ps e =
    rw (repeated "target_ip" n ps, repeated "target_ip" m ps)
      (cisco_for platform n m (lookup "target_ip" ps) ps e)
