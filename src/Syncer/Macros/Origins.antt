-- ===== src/Syncer/Macros/Origins.antt =====
-- Where the lines that fetchLines in syncer/syncer.go gives come from.
use zabbix_ddl_monitor.Base.{ℕ, String, none, some, List, [], Among, ◌≡◌, ◌≢◌, ◌⊎◌}
use zabbix_ddl_monitor.Base.Map.{Map, lookup}
use zabbix_ddl_monitor.Syncer.Line.{Line}
use zabbix_ddl_monitor.Syncer.Templates.{
  Built, template_failed, template_missing, cut_off, build_template_chain,
}
use zabbix_ddl_monitor.Syncer.Templates.Levels.{IsChain}
use zabbix_ddl_monitor.Syncer.Macros.{
  HostObject, Sources, HostResult, skipped, panics, has_line, Fetched, fetch_fails, crashes,
  fetches, macro, parse_duration_from_macro, default_interval,
}
use zabbix_ddl_monitor.Syncer.Macros.Priority.{IsSort, IsInForce}

module _ (src : Sources) (is_sort : IsSort src.sort) (globals : List (String × String)) where
  -- A line has the host's name as its address, and each other field from the macro for it.
  abbrev pub HasFields : String → Map String → Line → Type 0
  HasFields host m l =
      (l.ip ≡ host)
      × (l.id ≡ macro "{$LINE_ID}" m)
      × (l.interval
          ≡ parse_duration_from_macro src.parser (macro "{$LINE_CHECK_INTERVAL}" m)
              default_interval)
      × (l.router.ip ≡ macro "{$LINE_ROUTER_IP}" m)
      × (l.router.username ≡ macro "{$LINE_ROUTER_USERNAME}" m)
      × (l.router.password ≡ macro "{$LINE_ROUTER_PASSWORD}" m)
      × (l.router.platform ≡ macro "{$LINE_ROUTER_PLATFORM}" m)
      × (l.router.protocol ≡ macro "{$LINE_ROUTER_PROTOCOL}" m)

  -- Some macros have the values in force on the host, over all the templates that it reaches, and the
  -- line has its fields from them.
  abbrev pub Describes : HostObject → Line → Type 0
  Describes h l =
      (b : Built) × (m : Map String) × IsChain src.template_get h.parent_templates b
      × ((name : String) → IsInForce globals b.chain h.macros name (lookup name m))
      × HasFields h.host m l

  -- The templates of the host were read, and there are none.
  abbrev pub IsBare : HostObject → Type 0
  IsBare h = (b : Built) × IsChain src.template_get h.parent_templates b × (b.chain ≡ [])

  -- The name of a template of the host that could not be read.
  abbrev pub Unread : ℕ → HostObject → Type 0
  Unread fuel h =
      (id : String) × ((build_template_chain src.template_get fuel h.parent_templates
          ≡ template_failed id)
        ⊎ (build_template_chain src.template_get fuel h.parent_templates ≡ template_missing id))

  -- What one turn of the loop over the hosts means.
  abbrev Means : ℕ → HostObject → HostResult src → Type 0
  Means fuel h skipped = Unread fuel h
  Means fuel h panics = IsBare h
  Means fuel h (has_line l) = Describes h l

  module _ (fuel : ℕ) where
    -- Each line is that of a host, and each host has a line or a template that was not read.
    pub record IsComplete (hosts : List HostObject) (lines : Map Line) : Type 0 where
      pub of_host :
          (ip : String) (l : Line)
          → lookup ip lines ≡ some l
          → (h : HostObject) × Among h hosts × (h.host ≡ ip) × Describes h l
      pub covers : (h : HostObject) → Among h hosts → (lookup h.host lines ≢ none) ⊎ Unread fuel h

    abbrev pub IsExplained : List HostObject → Fetched src → Type 0
    IsExplained hosts fetch_fails = ⊥
    IsExplained hosts crashes = (h : HostObject) × Among h hosts × IsBare h
    IsExplained hosts (fetches lines) = IsComplete hosts lines

    abbrev Ended : List HostObject → Type 0
    Ended hosts =
        (h : HostObject)
        → Among h hosts
        → build_template_chain src.template_get fuel h.parent_templates ≢ cut_off
