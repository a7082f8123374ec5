-- ===== src/Syncer/Subscribers.antt =====
-- syncer/syncer.go: Subscribe, Subscription.Close, Stop and notifyAll. Each holds the syncer's lock.
-- A channel is a number with the events queued in it; closing one that is closed, or sending on it,
-- panics in Go, so the closes are kept in order.
pub mod Safety
pub mod Delivery
use zabbix_ddl_monitor.Base.{
  ℕ, zero, suc, ◌+◌, Bool, true, false, Option, none, some, List, [], ◌∷◌, ◌++◌, map, ◌==◌, ltb,
  length, if◌then◌else◌,
}
use zabbix_ddl_monitor.Syncer.Line.{LineChangeEvent}

pub record Channel : Type 0 where
  pub number : ℕ
  pub queued : List LineChangeEvent

-- `next` numbers the channels that `make` creates; `cancelled` keeps the subscriptions whose
-- `once` has run.
pub record Hub : Type 0 where
  pub subscribers : List Channel
  pub closed : List ℕ
  pub cancelled : List ℕ
  pub next : ℕ
  pub stopped : Bool

abbrev pub capacity : ℕ
capacity = 1000

abbrev pub numbers : List Channel → List ℕ
numbers [] = []
numbers (c ∷ cs) = c.number ∷ numbers cs

abbrev pub contains : ℕ → List ℕ → Bool
contains n [] = false
contains n (m ∷ ms) = if m == n then true else contains n ms

-- Subscribe: the new channel's number is the subscription's.
unfoldable pub subscribe : Hub → Hub
subscribe h = record h {
  subscribers = h.subscribers ++ record { number = h.next; queued = [] } ∷ [];
  next = suc h.next;
}

-- The loop of Close: the first channel with this number leaves the list.
unfoldable pub without : ℕ → List Channel → List Channel
without n [] = []
without n (c ∷ cs) = let rest = without n cs in if c.number == n then cs else c ∷ rest

-- Subscription.Close
unfoldable pub close : ℕ → Hub → Hub
unfolding without
close n h =
    if contains n h.cancelled
    then h
    else if contains n (numbers h.subscribers)
    then record h {
      subscribers = without n h.subscribers;
      closed = h.closed ++ n ∷ [];
      cancelled = n ∷ h.cancelled;
    }
    else record h { cancelled = n ∷ h.cancelled }

-- Stop
unfoldable pub stop : Hub → Hub
stop h =
    if h.stopped
    then h
    else record h { closed = h.closed ++ numbers h.subscribers; subscribers = []; stopped = true }

-- One send of notifyAll: with a full channel it waits for 100ms, and `room` says whether the reader
-- takes an event in that time; if not, the event is dropped.
abbrev make_room : List LineChangeEvent → List LineChangeEvent
make_room [] = []
make_room (e ∷ es) = es

unfoldable pub send : Bool → LineChangeEvent → Channel → Channel
send room e c =
    if ltb (length c.queued) capacity
    then record c { queued = c.queued ++ e ∷ [] }
    else if room
    then record c { queued = make_room c.queued ++ e ∷ [] }
    else c

-- The inner loop of notifyAll.
unfoldable pub send_to_all : (ℕ → Bool) → LineChangeEvent → List Channel → List Channel
unfolding send
send_to_all room e [] = []
send_to_all room e (c ∷ cs) = send (room c.number) e c ∷ send_to_all room e cs

-- The outer loop.
unfoldable pub notify :
    (LineChangeEvent → ℕ → Bool) → List LineChangeEvent → List Channel → List Channel
notify room [] cs = cs
notify room (e ∷ es) cs = notify room es (send_to_all (room e) e cs)

-- notifyAll
unfoldable pub notify_all : (LineChangeEvent → ℕ → Bool) → List LineChangeEvent → Hub → Hub
notify_all room es h = record h { subscribers = notify room es h.subscribers }
