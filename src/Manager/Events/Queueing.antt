-- ===== src/Manager/Events/Queueing.antt =====
-- What the buffer of handleLineChanges in manager/manager.go makes of the events.
use zabbix_ddl_monitor.Base.{
  ℕ, zero, suc, ◌≤◌, Bool, true, false, List, [], ◌∷◌, ◌++◌, length, length-append, ltb, ◌≡◌, refl,
  ◌∙◌, arith, if◌then◌else◌, append_assoc, append_nil,
}
use zabbix_ddl_monitor.Syncer.Line.{Router, LineChangeEvent}
use zabbix_ddl_monitor.Manager.Lines.{Manager, process_line_event, process_all}
use zabbix_ddl_monitor.Manager.Events.{
  Handling, Step, receives, processes, ends, buffer_capacity, receive, next, process, step, run,
  drain,
}

abbrev one_less : ℕ → ℕ
one_less zero = zero
one_less (suc n) = n

-- The events that a run takes: those that come before the end and do not find the buffer full.
-- `n` is how many events the buffer has.
abbrev pub taken : ℕ → Bool → List Step → List LineChangeEvent
taken n closed [] = []
taken n true (s ∷ ss) = []
taken n false (receives e ∷ ss) =
    let more = taken (suc n) false ss in
    let same = taken n false ss in if ltb n buffer_capacity then e ∷ more else same
taken n false (processes ∷ ss) = taken (one_less n) false ss
taken n false (ends ∷ ss) = []

taken_closed : (n : ℕ) (ss : List Step) → taken n true ss ≡ []
taken_closed n [] = refl
taken_closed n (s ∷ ss) = refl

process_all-append :
    (can_create : Router → Bool) (es fs : List LineChangeEvent) (m : Manager)
    → process_all can_create (es ++ fs) m ≡ process_all can_create fs (process_all can_create es m)
unfolding process_all
process_all-append can_create [] fs m = refl
process_all-append can_create (e ∷ es) fs m =
    process_all-append can_create es fs (process_line_event can_create e m)

length-snoc :
    (e : LineChangeEvent) (es : List LineChangeEvent) → length (es ++ e ∷ []) ≡ suc (length es)
length-snoc e es = omega (arith, length-append es (e ∷ []))

module _ (can_create : Router → Bool) where
  -- The final manager of a run from a state given by its parts.
  abbrev left : List Step → Manager → List LineChangeEvent → ℕ → Bool → Manager
  left ss m es d c =
      (drain can_create
        (run can_create ss (record { manager = m; buffer = es; dropped = d; closed = c }))).manager

  left-closed :
      (ss : List Step) (m : Manager) (es : List LineChangeEvent) (d : ℕ)
      → left ss m es d true ≡ process_all can_create es m
  unfolding drain run receive process process_all
  left-closed [] m es d = refl
  left-closed (receives e ∷ ss) m es d = left-closed ss m es d
  left-closed (processes ∷ ss) m [] d = left-closed ss m [] d
  left-closed (processes ∷ ss) m (k ∷ es) d =
      left-closed ss (process_line_event can_create k m) es d
  left-closed (ends ∷ ss) m es d = left-closed ss m es d

  left-open :
      (ss : List Step) (m : Manager) (es : List LineChangeEvent) (d : ℕ)
      → left ss m es d false ≡ process_all can_create (es ++ taken (length es) false ss) m
  unfolding drain run receive process process_all
  left-open [] m es d = rw (append_nil es) refl
  left-open (receives e ∷ ss) m es d =
      received (ltb (length es) buffer_capacity)
        (left-open ss m (es ++ e ∷ []) d
          ∙ rw (length-snoc e es)
              (rw (append_assoc es (e ∷ []) (taken (suc (length es)) false ss)) refl))
        (left-open ss m es (suc d))
    where
      received :
          (b : Bool)
          → left ss m (es ++ e ∷ []) d false
            ≡ process_all can_create (es ++ (e ∷ taken (suc (length es)) false ss)) m
          → left ss m es (suc d) false ≡ process_all can_create (es ++ taken (length es) false ss) m
          → (drain can_create (
              run can_create ss (
                if b
                then record { manager = m; buffer = es ++ e ∷ []; dropped = d; closed = false }
                else record { manager = m; buffer = es; dropped = suc d; closed = false }))).manager
            ≡ process_all can_create
                (es
                  ++ (if b
                      then e ∷ taken (suc (length es)) false ss
                      else taken (length es) false ss))
                m
      received true p q = p
      received false p q = q
  left-open (processes ∷ ss) m [] d = left-open ss m [] d
  left-open (processes ∷ ss) m (k ∷ es) d = left-open ss (process_line_event can_create k m) es d
  left-open (ends ∷ ss) m es d = left-closed ss m es d ∙ rw (append_nil es) refl

  -- Whatever the order in which events come and are handled, the manager that is left when the
  -- processor has emptied the closed buffer is the one that handles, in the order they came, the events
  -- in the buffer at the start and then those that came before the end and found room.
  pub drained-run :
      (ss : List Step) (h : Handling)
      → (drain can_create (run can_create ss h)).manager
        ≡ process_all can_create (h.buffer ++ taken (length h.buffer) h.closed ss) h.manager
  drained-run ss h = by_end h.closed
    where
      by_end :
          (c : Bool)
          → left ss h.manager h.buffer h.dropped c
            ≡ process_all can_create (h.buffer ++ taken (length h.buffer) c ss) h.manager
      by_end true =
          left-closed ss h.manager h.buffer h.dropped
          ∙ rw (taken_closed (length h.buffer) ss) (rw (append_nil h.buffer) refl)
      by_end false = left-open ss h.manager h.buffer h.dropped

  fits-step :
      (s : Step) (h : Handling)
      → length h.buffer ≤ buffer_capacity
      → length (step can_create s h).buffer ≤ buffer_capacity
  unfolding receive process
  fits-step (receives e) h b = ground (arith, length-snoc e h.buffer)
  fits-step processes h b = fits-next h.buffer refl b
    where
      fits-next :
          (es : List LineChangeEvent)
          → h.buffer ≡ es
          → length es ≤ buffer_capacity
          → length (next can_create es h).buffer ≤ buffer_capacity
      fits-next [] e c = rw e c
      fits-next (k ∷ es) e c = omega arith
  fits-step ends h b = b

  -- The event buffer never holds more than 500 events.
  pub buffer-run-le :
      (ss : List Step) (h : Handling)
      → length h.buffer ≤ buffer_capacity
      → length (run can_create ss h).buffer ≤ buffer_capacity
  unfolding run
  buffer-run-le [] h b = b
  buffer-run-le (s ∷ ss) h b = buffer-run-le ss (step can_create s h) (fits-step s h b)
