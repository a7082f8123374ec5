-- ===== src/Task/Ping/Meta.antt =====
-- task/ping.go: Meta, the platforms, protocols and command types that the ping task is registered for.
use zabbix_ddl_monitor.Base.{
  Bool, ◌&&◌, ◌||◌, String, List, [], ◌∷◌, str_eq, ◌≡◌, arith, if◌then◌else◌,
}
use zabbix_ddl_monitor.Base.Map.{lookup, insert}
use zabbix_ddl_monitor.Task.Registry.{
  CommandTypeSupport, PlatformSupport, TaskMeta, register, found, no_match, discover, find_platform,
  find_protocol, find_command,
}

-- What the task is registered for.
abbrev pub is_supported : String → String → String → Bool
is_supported platform protocol kind =
    (str_eq "cisco_iosxe" platform
      || (str_eq "cisco_iosxr" platform
          || (str_eq "cisco_nxos" platform
              || (str_eq "huawei_vrp" platform || str_eq "h3c_comware" platform))))
    && (str_eq "scrapli" protocol && (str_eq "interactive_event" kind || str_eq "commands" kind))

module _ {T : Type 0} (ping : T) where
  abbrev pub both_kinds : List (CommandTypeSupport T)
  both_kinds =
      record { command_type = "interactive_event"; impl_factory = ping }
      ∷ record { command_type = "commands"; impl_factory = ping }
      ∷ []

  abbrev pub over_scrapli : String → PlatformSupport T
  over_scrapli platform = record {
    platform = platform;
    protocols = record { protocol = "scrapli"; command_types = both_kinds } ∷ [];
  }

  -- Meta; the parameters' descriptions are left out.
  unfoldable pub ping_meta : TaskMeta T
  ping_meta = record {
    task_type = "ping";
    description = "Ping task for network devices";
    platforms =
        over_scrapli "cisco_iosxe"
        ∷ over_scrapli "cisco_iosxr"
        ∷ over_scrapli "cisco_nxos"
        ∷ over_scrapli "huawei_vrp"
        ∷ over_scrapli "h3c_comware"
        ∷ [];
  }

  -- After the ping task has been registered in an empty registry it is found exactly for the five
  -- platforms, the protocol scrapli and the two command types, and for no router over ssh.
  pub discover-ping_meta :
      (platform protocol kind : String)
      → discover "ping" platform protocol kind (register ping_meta []).1
        ≡ (if is_supported platform protocol kind then found ping else no_match)
  unfolding ping_meta discover register find_platform find_protocol find_command lookup insert
  discover-ping_meta platform protocol kind = ground arith
