-- ===== src/Manager/Events.antt =====
-- manager/manager.go: handleLineChanges. One goroutine moves the subscription's events to a buffer of
-- 500 and drops those that find it full; the event processor handles them one by one, in their order,
-- and what is left when the buffer is closed as well.
pub mod Queueing
use zabbix_ddl_monitor.Base.{
  ℕ, zero, suc, ◌+◌, Bool, true, false, List, [], ◌∷◌, ◌++◌, length, ltb, if◌then◌else◌,
}
use zabbix_ddl_monitor.Syncer.Line.{Router, LineChangeEvent}
use zabbix_ddl_monitor.Manager.Lines.{Manager, process_line_event, process_all}

-- The manager with its event buffer; `dropped` counts the errors "event_buffer_full".
pub record Handling : Type 0 where
  pub manager : Manager
  pub buffer : List LineChangeEvent
  pub dropped : ℕ
  pub closed : Bool

abbrev pub buffer_capacity : ℕ
buffer_capacity = 500

-- What happens to the buffer: an event comes from the subscription; the processor handles the next
-- one; the context or the stop channel ends the loop.
pub data Step : Type 0 where
  receives : LineChangeEvent → Step
  processes ends : Step

-- The inner select of the loop; after its end nothing is received.
unfoldable pub receive : LineChangeEvent → Handling → Handling
receive e h =
    if h.closed
    then h
    else if ltb (length h.buffer) buffer_capacity
    then record h { buffer = h.buffer ++ e ∷ [] }
    else record h { dropped = suc h.dropped }

module _ (can_create : Router → Bool) where
  -- One round of the event processor's loop.
  abbrev pub next : List LineChangeEvent → Handling → Handling
  next [] h = h
  next (e ∷ es) h = record h { manager = process_line_event can_create e h.manager; buffer = es }

  unfoldable pub process : Handling → Handling
  process h = next h.buffer h

  abbrev pub step : Step → Handling → Handling
  step (receives e) h = receive e h
  step processes h = process h
  step ends h = record h { closed = true }

  unfoldable pub run : List Step → Handling → Handling
  run [] h = h
  run (s ∷ ss) h = run ss (step s h)

  -- The processor's loop to its end, over a closed buffer.
  unfoldable pub drain : Handling → Handling
  drain h = record h { manager = process_all can_create h.buffer h.manager; buffer = [] }
