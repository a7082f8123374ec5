-- ===== src/Syncer/Macros/Fetching.antt =====
-- The lines that fetchLines in syncer/syncer.go makes of the hosts, and when it panics.
use zabbix_ddl_monitor.Base.{
  ℕ, true, String, Option, none, some, List, [], ◌∷◌, Among, str_eq, eq_iff, ◌≡◌, ◌≢◌, refl, subst,
  sym, ◌∙◌, arith, ◌⊎◌, inl, inr, Bool-cases,
}
use zabbix_ddl_monitor.Base.Map.{Map, lookup, insert, lookup-insert}
use zabbix_ddl_monitor.Syncer.Line.{Line, compute_hash}
use zabbix_ddl_monitor.Syncer.Templates.{
  Outcome, done, template_failed, template_missing, cut_off, build_template_chain, build_all,
}
use zabbix_ddl_monitor.Syncer.Macros.{
  HostObject, Sources, HostResult, skipped, panics, has_line, with_macros, with_chain, host_line,
  line_of, after_host, and_then, host_lines, Fetched, fetch_fails, crashes, fetches, as_fetched,
  fetch_lines, merge_macros,
}

module _ (src : Sources) (fuel : ℕ) (globals : List (String × String)) where
  abbrev turn : HostObject → HostResult src
  turn h = host_line src fuel globals h

  bare_host_panics : (h : HostObject) → h.parent_templates ≡ [] → turn h ≡ panics
  unfolding host_line build_template_chain build_all merge_macros
  bare_host_panics h e = rw e refl

  rest_panics :
      (o : Option (Map Line)) (next : Map Line → Option (Map Line))
      → ((m : Map Line) → next m ≡ none)
      → and_then src o next ≡ none
  rest_panics none next k = refl
  rest_panics (some m) next k = k m

  pub host_lines_panics :
      (h : HostObject) (hosts : List HostObject) (lines : Map Line)
      → Among h hosts
      → turn h ≡ panics
      → host_lines src fuel globals hosts lines ≡ none
  unfolding host_lines
  host_lines_panics h [] lines a e = absurd a
  host_lines_panics h (k ∷ hs) lines (inl q) e =
      rw (subst (λ (x : HostObject). turn x ≡ panics) (sym q) e) refl
  host_lines_panics h (k ∷ hs) lines (inr a) e =
      rest_panics (after_host src lines (turn k)) (λ more. host_lines src fuel globals hs more)
        (λ more. host_lines_panics h hs more a e)

  -- One host without templates, whatever macros it has, makes fetchLines panic, and no line of any
  -- other host is fetched.
  pub fetch_lines_crashes :
      (h : HostObject) (hosts : List HostObject)
      → Among h hosts
      → h.parent_templates ≡ []
      → fetch_lines src fuel (some globals) (some hosts) ≡ crashes
  unfolding fetch_lines
  fetch_lines_crashes h hosts a e = rw (host_lines_panics h hosts [] a (bare_host_panics h e)) refl

  -- This line was made of one of the hosts.
  abbrev pub IsOfHost : List HostObject → String → Line → Type 0
  IsOfHost hosts ip l =
      (h : HostObject) × Among h hosts × (host_line src fuel globals h ≡ has_line l) × (h.host ≡ ip)

  -- Every line is of a host with that address, and every host that was not skipped has a line.
  pub record IsFetchedOf (hosts : List HostObject) (lines : Map Line) : Type 0 where
    pub of_host : (ip : String) (l : Line) → lookup ip lines ≡ some l → IsOfHost hosts ip l
    pub has_its_line :
        (h : HostObject) (l : Line)
        → Among h hosts
        → host_line src fuel globals h ≡ has_line l
        → lookup h.host lines ≢ none

  ip-host_line : (h : HostObject) (l : Line) → turn h ≡ has_line l → l.ip ≡ h.host
  unfolding host_line line_of compute_hash
  ip-host_line h l e =
      ip_after h (build_template_chain src.template_get fuel h.parent_templates) l e
    where
      ip_with :
          (h : HostObject) (o : Option (Map String)) (l : Line)
          → with_macros src h.host o ≡ has_line l
          → l.ip ≡ h.host
      ip_with h none l e = absurd (ground arith)
      ip_with h (some m) l e = ground arith

      ip_after :
          (h : HostObject) (o : Outcome) (l : Line)
          → with_chain src globals h o ≡ has_line l
          → l.ip ≡ h.host
      ip_after h (done b) l e = ip_with h (merge_macros src.sort globals b.chain h.macros) l e
      ip_after h (template_failed id) l e = absurd (ground arith)
      ip_after h (template_missing id) l e = absurd (ground arith)
      ip_after h cut_off l e = absurd (ground arith)

  -- What the loop adds to the lines that there were.
  record Fills (hosts : List HostObject) (old lines : Map Line) : Type 0 where
    from :
        (ip : String) (l : Line)
        → lookup ip lines ≡ some l
        → IsOfHost hosts ip l ⊎ (lookup ip old ≡ some l)
    keeps : (ip : String) → lookup ip old ≢ none → lookup ip lines ≢ none
    adds :
        (h : HostObject) (l : Line)
        → Among h hosts
        → turn h ≡ has_line l
        → lookup h.host lines ≢ none

  abbrev FillsIf : List HostObject → Map Line → Option (Map Line) → Type 0
  FillsIf hosts old none = Unit {0}
  FillsIf hosts old (some lines) = Fills hosts old lines

  one_more :
      (k : HostObject) (hs : List HostObject) (ip : String) (l : Line)
      → IsOfHost hs ip l
      → IsOfHost (k ∷ hs) ip l
  one_more k hs ip l (h, a, e, q) = (h, inr a, e, q)

  Fills_skipped :
      (k : HostObject) (hs : List HostObject) (old : Map Line) (o : Option (Map Line))
      → turn k ≡ skipped
      → FillsIf hs old o
      → FillsIf (k ∷ hs) old o
  Fills_skipped k hs old none e f = tt
  Fills_skipped k hs old (some lines) e f = record {
    from = λ ip l q. elim (f.from ip l q) [ inl s ↦ inl (one_more k hs ip l s) | inr s ↦ inr s ];
    keeps = f.keeps;
    adds = λ h l a q. elim a [ inl s ↦ absurd (not_skipped h l s q) | inr b ↦ f.adds h l b q ];
  }
    where
      not_skipped : (h : HostObject) (l : Line) → k ≡ h → turn h ≡ has_line l → ⊥
      not_skipped h l s q = ground (arith, subst (λ x. turn x ≡ skipped) s e)

  Fills_line :
      (k : HostObject) (hs : List HostObject) (old : Map Line) (l : Line) (o : Option (Map Line))
      → turn k ≡ has_line l
      → FillsIf hs (insert l.ip l old) o
      → FillsIf (k ∷ hs) old o
  Fills_line k hs old l none e f = tt
  Fills_line k hs old l (some lines) e f = record {
    from = λ ip x q. elim (f.from ip x q) [
      | inl s ↦ inl (one_more k hs ip x s)
      | inr s ↦ inserted ip x s
    ];
    keeps = λ ip n. f.keeps ip (there ip n);
    adds = λ h x a q. elim a [
      | inl s ↦ subst (λ y. lookup y.host lines ≢ none) s (f.keeps k.host its_own)
      | inr b ↦ f.adds h x b q
    ];
  }
    where
      its_ip : l.ip ≡ k.host
      its_ip = ip-host_line k l e

      same_line :
          (ip : String) (x : Line)
          → lookup ip (insert l.ip l old) ≡ some x
          → str_eq l.ip ip ≡ true
          → l ≡ x
      same_line ip x s t = cc (lookup-insert l.ip ip l old, s, t)

      inserted :
          (ip : String) (x : Line)
          → lookup ip (insert l.ip l old) ≡ some x
          → IsOfHost (k ∷ hs) ip x ⊎ (lookup ip old ≡ some x)
      inserted ip x s = elim (Bool-cases (str_eq l.ip ip)) [
        | inl t ↦ inl (
          k,
          inl refl,
          subst (λ y. turn k ≡ has_line y) (same_line ip x s t) e,
          sym its_ip ∙ (eq_iff l.ip ip).0 t,
        )
        | inr t ↦ inr (ground (arith, lookup-insert l.ip ip l old))
      ]

      there : (ip : String) → lookup ip old ≢ none → lookup ip (insert l.ip l old) ≢ none
      there ip n = ground (arith, lookup-insert l.ip ip l old)

      its_own : lookup k.host (insert l.ip l old) ≢ none
      its_own = ground (arith, lookup-insert l.ip k.host l old, (eq_iff l.ip k.host).1 its_ip)

  host_lines-Fills :
      (hosts : List HostObject) (old : Map Line)
      → FillsIf hosts old (host_lines src fuel globals hosts old)
  unfolding host_lines
  host_lines-Fills [] old = record {
    from = λ ip l q. inr q;
    keeps = λ ip n. n;
    adds = λ h l a q. absurd a;
  }
  host_lines-Fills (k ∷ hs) old = Fills_turn k hs old (turn k) refl (λ m. host_lines-Fills hs m)
    where
      Fills_turn :
          (k : HostObject) (hs : List HostObject) (old : Map Line) (r : HostResult src)
          → turn k ≡ r
          → ((m : Map Line) → FillsIf hs m (host_lines src fuel globals hs m))
          → FillsIf
              (k ∷ hs)
              old
              (and_then src (after_host src old r) (λ more. host_lines src fuel globals hs more))
      Fills_turn k hs old skipped e f =
          Fills_skipped k hs old (host_lines src fuel globals hs old) e (f old)
      Fills_turn k hs old panics e f = tt
      Fills_turn k hs old (has_line l) e f =
          Fills_line k hs old l (host_lines src fuel globals hs (insert l.ip l old)) e
            (f (insert l.ip l old))

  abbrev pub IsFetched : List HostObject → Fetched src → Type 0
  IsFetched hosts fetch_fails = ⊥
  IsFetched hosts crashes = Unit {0}
  IsFetched hosts (fetches lines) = IsFetchedOf hosts lines

  only_hosts :
      (hosts : List HostObject) (o : Option (Map Line))
      → FillsIf hosts [] o
      → IsFetched hosts (as_fetched src o)
  unfolding lookup
  only_hosts hosts none f = tt
  only_hosts hosts (some lines) f = record {
    of_host = λ ip l q. elim (f.from ip l q) [ inl s ↦ s | inr s ↦ absurd (ground arith) ];
    has_its_line = f.adds;
  }

  -- The lines that fetchLines gives are those of the turns of its loop.
  pub fetch_lines-IsFetched :
      (hosts : List HostObject) → IsFetched hosts (fetch_lines src fuel (some globals) (some hosts))
  unfolding fetch_lines
  fetch_lines-IsFetched hosts =
      only_hosts hosts (host_lines src fuel globals hosts []) (host_lines-Fills hosts [])
