-- ===== src/Task/Ping.antt =====
-- task/ping.go: the parameters and the commands of the ping task. A value of `interface{}` is a text,
-- an int, a time.Duration or anything else; ints and durations are patterns of 64 bits.
pub mod Output
pub mod Verdicts
pub mod Loss
pub mod Results
pub mod Misread
pub mod Meta
pub mod Commands
use zabbix_ddl_monitor.Base.{
  ℕ, ◌*◌, ◌/◌, Bool, true, false, not, ◌&&◌, ◌||◌, String, Option, none, some, List, [], ◌∷◌, ◌++◌,
  str_eq, if◌then◌else◌,
}
use zabbix_ddl_monitor.Base.Int64
use zabbix_ddl_monitor.Base.Map.{Map, lookup}
use zabbix_ddl_monitor.Base.Text.{Text, codes, is_empty_text, decimal, decimal64}

pub data Value : Type 0 where
  text : Text → Value
  int : ℕ → Value
  duration : ℕ → Value
  other : Value

pub data ParamError : Type 0 where
  target_required target_empty target_type password_type : ParamError
  repeat_range repeat_type timeout_range timeout_type : ParamError

abbrev pub second : ℕ
second = 1000000000

-- `none` is no error. The conditions stand in the order of the code.
abbrev check_password : Option Value → Option ParamError
check_password none = none
check_password (some (text s)) = none
check_password (some v) = some password_type

abbrev check_timeout : Option Value → Option ParamError → Option ParamError
check_timeout none next = next
check_timeout (some (duration n)) next =
    if Int64.leb64 n 0 || Int64.ltb64 (60 * second) n then some timeout_range else next
check_timeout (some v) next = some timeout_type

abbrev check_repeat : Option Value → Option ParamError → Option ParamError
check_repeat none next = next
check_repeat (some (int n)) next =
    if Int64.leb64 n 0 || Int64.ltb64 100 n then some repeat_range else next
check_repeat (some v) next = some repeat_type

abbrev check_target : Option Value → Option ParamError → Option ParamError
check_target none next = some target_required
check_target (some (text s)) next = if is_empty_text s then some target_empty else next
check_target (some v) next = some target_type

-- ValidateParams
unfoldable pub validate_params : Map Value → Option ParamError
validate_params ps = check_target (lookup "target_ip" ps) (
    check_repeat (lookup "repeat" ps)
      (check_timeout (lookup "timeout" ps) (check_password (lookup "enable_password" ps))))

pub data Vendor : Type 0 where
  cisco huawei h3c unknown : Vendor

-- The cases of the switches on ctx.Platform.
abbrev pub vendor : String → Vendor
vendor p =
    if str_eq p "cisco_iosxe" || (str_eq p "cisco_iosxr" || str_eq p "cisco_nxos")
    then cisco
    else if str_eq p "huawei_vrp"
    then huawei
    else if str_eq p "h3c_comware"
    then h3c
    else unknown

pub record InteractiveEvent : Type 0 where
  pub channel_input : Text
  pub channel_response : Text

pub data Command : Type 0 where
  commands : List Text → Command
  interactive : List InteractiveEvent → Command

pub data BuildResult : Type 0 where
  built : Command → BuildResult
  missing_target wrong_target wrong_repeat wrong_timeout : BuildResult
  unsupported_platform unsupported_type : BuildResult

-- int(timeout.Seconds()) and int(timeout.Milliseconds()), for a timeout as ValidateParams admits it,
-- which is positive and at most a minute.
abbrev pub seconds : ℕ → ℕ
seconds timeout = timeout / second

abbrev pub milliseconds : ℕ → ℕ
milliseconds timeout = timeout / 1000000

-- buildHuaweiCommand, buildH3CCommand and the inputs of their events.
abbrev pub count_ping : Text → ℕ → ℕ → Text
count_ping ip repeat timeout =
    codes "ping -c "
    ++ (decimal64 repeat ++ (codes " -t " ++ (decimal (milliseconds timeout) ++ (codes " " ++ ip))))

unfoldable pub build_cisco_command : Text → ℕ → Text → List Text
build_cisco_command ip timeout password =
    let ping = (codes "ping " ++ (ip ++ (codes " timeout " ++ decimal (seconds timeout)))) ∷ [] in
    if is_empty_text password then ping else codes "enable" ∷ password ∷ ping

unfoldable pub build_cisco_event : Text → ℕ → ℕ → Text → List InteractiveEvent
build_cisco_event ip repeat timeout password =
    record {
      channel_input =
          codes "ping "
          ++ (ip
              ++ (codes " repeat "
                  ++ (decimal64 repeat ++ (codes " timeout " ++ decimal (seconds timeout)))));
      channel_response = if is_empty_text password then codes ">" else codes "#";
    }
    ∷ []

unfoldable pub build_count_event : Text → ℕ → ℕ → List InteractiveEvent
build_count_event ip repeat timeout =
    record { channel_input = count_ping ip repeat timeout; channel_response = codes ">" } ∷ []

abbrev pub commands_for : Vendor → Text → ℕ → ℕ → Text → BuildResult
commands_for cisco ip repeat timeout password =
    built (commands (build_cisco_command ip timeout password))
commands_for huawei ip repeat timeout password =
    built (commands (count_ping ip repeat timeout ∷ []))
commands_for h3c ip repeat timeout password = built (commands (count_ping ip repeat timeout ∷ []))
commands_for unknown ip repeat timeout password = unsupported_platform

abbrev pub events_for : Vendor → Text → ℕ → ℕ → Text → BuildResult
events_for cisco ip repeat timeout password =
    built (interactive (build_cisco_event ip repeat timeout password))
events_for huawei ip repeat timeout password =
    built (interactive (build_count_event ip repeat timeout))
events_for h3c ip repeat timeout password =
    built (interactive (build_count_event ip repeat timeout))
events_for unknown ip repeat timeout password = unsupported_platform

abbrev pub password_of : Option Value → Text
password_of (some (text s)) = s
password_of _ = []

-- The repeat count, 5 if there is none, and the timeout, two seconds if there is none; `none` for a
-- value of another type.
abbrev pub repeat_of : Option Value → Option ℕ
repeat_of none = some 5
repeat_of (some (int n)) = some n
repeat_of (some v) = none

abbrev pub timeout_of : Option Value → Option ℕ
timeout_of none = some (2 * second)
timeout_of (some (duration n)) = some n
timeout_of (some v) = none

abbrev build_with : String → String → Text → Option ℕ → Option ℕ → Text → BuildResult
build_with platform kind ip none t password = wrong_repeat
build_with platform kind ip (some r) none password = wrong_timeout
build_with platform kind ip (some r) (some t) password =
    if str_eq kind "commands"
    then commands_for (vendor platform) ip r t password
    else if str_eq kind "interactive_event"
    then events_for (vendor platform) ip r t password
    else unsupported_type

abbrev build_for : String → String → Option Value → Map Value → BuildResult
build_for platform kind none ps = missing_target
build_for platform kind (some (text ip)) ps =
    build_with platform kind ip (repeat_of (lookup "repeat" ps)) (timeout_of (lookup "timeout" ps))
      (password_of (lookup "enable_password" ps))
build_for platform kind (some v) ps = wrong_target

-- BuildCommand, for a platform, a command type and the parameters.
unfoldable pub build_command : String → String → Map Value → BuildResult
build_command platform kind ps = build_for platform kind (lookup "target_ip" ps) ps
