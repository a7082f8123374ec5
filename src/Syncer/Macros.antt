-- ===== src/Syncer/Macros.antt =====
-- syncer/syncer.go: the macros that are in force on a host, and the line that they describe. The
-- order that sort.Slice gives and strconv.ParseInt are arguments.
pub mod Priority
pub mod Fetching
pub mod Origins
use zabbix_ddl_monitor.Base.{
  ℕ, ◌*◌, ◌%◌, ◌^◌, Bool, true, false, String, Option, none, some, List, [], ◌∷◌, str_eq, leb, ◌==◌,
  if◌then◌else◌,
}
use zabbix_ddl_monitor.Base.Int64.{word, half_word}
use zabbix_ddl_monitor.Base.Map.{Map, lookup, insert}
use zabbix_ddl_monitor.Syncer.Line.{Line, Router, Hasher, compute_hash}
use zabbix_ddl_monitor.Syncer.Templates.{
  TemplateAnswer, TemplateNode, Outcome, done, template_failed, template_missing, cut_off,
  write_all, build_template_chain,
}

-- Macros of the nodes, each node's over those of the nodes before it.
unfoldable pub write_nodes : List TemplateNode → Map String → Map String
unfolding write_all
write_nodes [] m = m
write_nodes (n ∷ ns) m = write_nodes ns (write_all n.macros m)

-- mergeMacros. The log line after the templates reads chain[0], so an empty chain is a panic, which
-- is `none`.
unfoldable pub merge_macros :
    (List TemplateNode → List TemplateNode)
    → List (String × String)
    → List TemplateNode
    → List (String × String)
    → Option (Map String)
unfolding write_nodes
merge_macros sort globals [] hosts = none
merge_macros sort globals (n ∷ ns) hosts =
    some (write_all hosts (write_nodes (sort (n ∷ ns)) (write_all globals [])))

-- What parseDurationFromMacro takes from strconv: ParseInt in base 10 for an int64, as a bit
-- pattern, and none for an error.
pub record Parser : Type 0 where
  pub parse_int : String → Option ℕ

-- A number of seconds, which is an int64, as a duration: the product wraps around.
abbrev pub to_duration : ℕ → ℕ
to_duration seconds = (seconds * 1000000000) % word

abbrev pub parsed_duration : ℕ → Option ℕ → ℕ
parsed_duration default none = default
parsed_duration default (some seconds) =
    if leb half_word seconds then default else to_duration seconds

-- parseDurationFromMacro
unfoldable pub parse_duration_from_macro : Parser → String → ℕ → ℕ
parse_duration_from_macro parser value default =
    if str_eq value "" then default else parsed_duration default (parser.parse_int value)

-- DefaultInterval, in nanoseconds.
abbrev pub default_interval : ℕ
default_interval = 180000000000

-- finalMacros[name], which is empty for a name that is not there.
abbrev pub or_empty : Option String → String
or_empty none = ""
or_empty (some value) = value

abbrev pub macro : String → Map String → String
macro name m = or_empty (lookup name m)

pub record HostObject : Type 0 where
  pub host : String
  pub parent_templates : List String
  pub macros : List (String × String)

-- What fetchLines takes from outside: the calls of Zabbix, `none` for an error, and the libraries.
pub record Sources : Type 0 where
  pub template_get : String → TemplateAnswer
  pub sort : List TemplateNode → List TemplateNode
  pub parser : Parser
  pub hasher : Hasher

module _ (src : Sources) where
  -- Step 3.3
  unfoldable pub line_of : String → Map String → Line
  unfolding compute_hash parse_duration_from_macro
  line_of host m = compute_hash src.hasher (record {
    id = macro "{$LINE_ID}" m;
    ip = host;
    interval =
        parse_duration_from_macro src.parser (macro "{$LINE_CHECK_INTERVAL}" m) default_interval;
    router = record {
      ip = macro "{$LINE_ROUTER_IP}" m;
      username = macro "{$LINE_ROUTER_USERNAME}" m;
      password = macro "{$LINE_ROUTER_PASSWORD}" m;
      platform = macro "{$LINE_ROUTER_PLATFORM}" m;
      protocol = macro "{$LINE_ROUTER_PROTOCOL}" m;
    };
    hash = 0;
  })

  -- One turn of the loop: the host is left out, its line is there, or mergeMacros panics.
  pub data HostResult : Type 0 where
    skipped panics : HostResult
    has_line : Line → HostResult

  abbrev pub with_macros : String → Option (Map String) → HostResult
  with_macros host none = panics
  with_macros host (some m) = has_line (line_of host m)

  -- A chain that ran out of the model's fuel has no counterpart in the code; with the fuel that
  -- Origins asks for there is none.
  abbrev pub with_chain : List (String × String) → HostObject → Outcome → HostResult
  with_chain globals h (done b) =
      with_macros h.host (merge_macros src.sort globals b.chain h.macros)
  with_chain globals h (template_failed id) = skipped
  with_chain globals h (template_missing id) = skipped
  with_chain globals h cut_off = skipped

  unfoldable pub host_line : ℕ → List (String × String) → HostObject → HostResult
  unfolding line_of merge_macros build_template_chain
  host_line fuel globals h =
      with_chain globals h (build_template_chain src.template_get fuel h.parent_templates)

  -- The loop over the hosts; `none` is a panic.
  abbrev pub after_host : Map Line → HostResult → Option (Map Line)
  after_host lines skipped = some lines
  after_host lines panics = none
  after_host lines (has_line l) = some (insert l.ip l lines)

  abbrev pub and_then : Option (Map Line) → (Map Line → Option (Map Line)) → Option (Map Line)
  and_then none next = none
  and_then (some lines) next = next lines

  unfoldable pub host_lines :
      ℕ → List (String × String) → List HostObject → Map Line → Option (Map Line)
  unfolding host_line
  host_lines fuel globals [] lines = some lines
  host_lines fuel globals (h ∷ hs) lines =
      and_then (after_host lines (host_line fuel globals h))
        (λ more. host_lines fuel globals hs more)

  pub data Fetched : Type 0 where
    fetch_fails crashes : Fetched
    fetches : Map Line → Fetched

  abbrev pub as_fetched : Option (Map Line) → Fetched
  as_fetched none = crashes
  as_fetched (some lines) = fetches lines

  -- fetchLines, from the answers of UsermacroGet and HostGet on.
  unfoldable pub fetch_lines :
      ℕ → Option (List (String × String)) → Option (List HostObject) → Fetched
  unfolding host_lines
  fetch_lines fuel none hosts = fetch_fails
  fetch_lines fuel (some globals) none = fetch_fails
  fetch_lines fuel (some globals) (some hosts) = as_fetched (host_lines fuel globals hosts [])

  -- What GetProxyFormHost gives: an error, or the ids of the proxies.
  pub data ProxyAnswer : Type 0 where
    query_fails : ProxyAnswer
    proxies : List String → ProxyAnswer

  abbrev pub with_proxy_id : ℕ → Option ℕ → ℕ × Bool
  with_proxy_id proxy_id none = (proxy_id, false)
  with_proxy_id proxy_id (some id) = (id, true)

  -- handleProxyId: the field, an int, and whether there is no error. Atoi is ParseInt in base 10.
  unfoldable pub handle_proxy_id : ProxyAnswer → ℕ → ℕ × Bool
  handle_proxy_id query_fails proxy_id = (proxy_id, false)
  handle_proxy_id (proxies []) proxy_id = (proxy_id, false)
  handle_proxy_id (proxies (id ∷ ids)) proxy_id = with_proxy_id proxy_id (src.parser.parse_int id)

  -- fetchLines: the field proxyID, and the result. HostGet asks for the hosts of this proxy.
  unfoldable pub fetch :
      ℕ
      → ProxyAnswer
      → Option (List (String × String))
      → (ℕ → Option (List HostObject))
      → ℕ
      → ℕ × Fetched
  unfolding handle_proxy_id fetch_lines
  fetch fuel answer globals hosts proxy_id =
      if proxy_id == 0
      then (let (id, known) = handle_proxy_id answer proxy_id in
          if known then (id, fetch_lines fuel globals (hosts id)) else (id, fetch_fails))
      else (proxy_id, fetch_lines fuel globals (hosts proxy_id))
