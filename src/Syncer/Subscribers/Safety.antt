-- ===== src/Syncer/Subscribers/Safety.antt =====
-- No channel of syncer/syncer.go is closed twice or sent to after it was closed.
use zabbix_ddl_monitor.Base.{
  ℕ, suc, ◌+◌, ◌≤◌, ◌<◌, Bool, true, false, List, [], ◌∷◌, ◌++◌, ◌==◌, ◌≡◌, refl, arith,
  if◌then◌else◌, ◌⊎◌, inl, inr, Bool-cases,
}
use zabbix_ddl_monitor.Syncer.Line.{LineChangeEvent}
use zabbix_ddl_monitor.Syncer.Subscribers.{
  Channel, Hub, numbers, contains, subscribe, without, close, stop, send_to_all, notify, notify_all,
}

abbrev pub count : ℕ → List ℕ → ℕ
count n [] = 0
count n (m ∷ ms) = if m == n then suc (count n ms) else count n ms

count-append : (n : ℕ) (xs ys : List ℕ) → count n (xs ++ ys) ≡ count n xs + count n ys
count-append n [] ys = omega arith
count-append n (x ∷ xs) ys = ground (arith, count-append n xs ys)

count-without :
    (n k : ℕ) (cs : List Channel)
    → contains n (numbers cs) ≡ true
    → count k (numbers (without n cs)) + (if n == k then 1 else 0) ≡ count k (numbers cs)
unfolding without
count-without n k [] h = cc
count-without n k (c ∷ cs) h = ground (arith, count-without n k cs)

numbers-append : (cs ds : List Channel) → numbers (cs ++ ds) ≡ numbers cs ++ numbers ds
numbers-append [] ds = refl
numbers-append (c ∷ cs) ds = rw (numbers-append cs ds)

numbers-send_to_all :
    (room : ℕ → Bool) (e : LineChangeEvent) (cs : List Channel)
    → numbers (send_to_all room e cs) ≡ numbers cs
unfolding send_to_all
numbers-send_to_all room e [] = refl
numbers-send_to_all room e (c ∷ cs) = ground (arith, numbers-send_to_all room e cs)

numbers-notify :
    (room : LineChangeEvent → ℕ → Bool) (es : List LineChangeEvent) (cs : List Channel)
    → numbers (notify room es cs) ≡ numbers cs
unfolding notify
numbers-notify room [] cs = refl
numbers-notify room (e ∷ es) cs =
    rw (numbers-notify room es (send_to_all (room e) e cs)) (numbers-send_to_all (room e) e cs)

-- The calls of clients and of the syncer.
pub data Call : Type 0 where
  subscribes stops : Call
  closes : ℕ → Call
  notifies : (LineChangeEvent → ℕ → Bool) → List LineChangeEvent → Call

abbrev pub step : Call → Hub → Hub
step subscribes h = subscribe h
step stops h = stop h
step (closes n) h = close n h
step (notifies room es) h = notify_all room es h

abbrev pub run : List Call → Hub → Hub
run [] h = h
run (c ∷ cs) h = run cs (step c h)

-- How often a channel stands among the subscribers and the closes together.
total : ℕ → Hub → ℕ
total n h = count n (numbers h.subscribers) + count n h.closed

total-close : (n k : ℕ) (h : Hub) → total k (close n h) ≡ total k h
unfolding total close
total-close n k h =
    ground (arith, count-without n k h.subscribers, count-append k h.closed (n ∷ []))

total-stop : (k : ℕ) (h : Hub) → total k (stop h) ≡ total k h
unfolding total stop
total-stop k h = ground (arith, count-append k h.closed (numbers h.subscribers))

total-notify_all :
    (room : LineChangeEvent → ℕ → Bool) (es : List LineChangeEvent) (k : ℕ) (h : Hub)
    → total k (notify_all room es h) ≡ total k h
unfolding total notify_all
total-notify_all room es k h = rw (numbers-notify room es h.subscribers)

total-subscribe :
    (k : ℕ) (h : Hub) → total k (subscribe h) ≡ total k h + (if h.next == k then 1 else 0)
unfolding total subscribe
total-subscribe k h =
    rw (numbers-append h.subscribers (record { number = h.next; queued = [] } ∷ []))
      (ground (arith, count-append k (numbers h.subscribers) (h.next ∷ [])))

-- Each channel stands there at most once, and only channels that were made stand there.
abbrev Bounded : Hub → Type 0
Bounded h = (n : ℕ) → (total n h ≤ 1) × (h.next ≤ n → total n h ≡ 0)

next-close : (n : ℕ) (h : Hub) → (close n h).next ≡ h.next
unfolding close
next-close n h = ground arith

next-stop : (h : Hub) → (stop h).next ≡ h.next
unfolding stop
next-stop h = ground arith

next-subscribe : (h : Hub) → (subscribe h).next ≡ suc h.next
unfolding subscribe
next-subscribe h = refl

next-notify_all :
    (room : LineChangeEvent → ℕ → Bool) (es : List LineChangeEvent) (h : Hub)
    → (notify_all room es h).next ≡ h.next
unfolding notify_all
next-notify_all room es h = refl

Bounded-step : (c : Call) (h : Hub) → Bounded h → Bounded (step c h)
Bounded-step subscribes h b n =
    let t = total-subscribe n h in
    let x = next-subscribe h in let (le, new) = b n in (ground arith, λ p. ground (arith, new))
Bounded-step stops h b n = rw (total-stop n h, next-stop h) (b n)
Bounded-step (closes k) h b n = rw (total-close k n h, next-close k h) (b n)
Bounded-step (notifies room es) h b n =
    rw (total-notify_all room es n h, next-notify_all room es h) (b n)

Bounded-run : (cs : List Call) (h : Hub) → Bounded h → Bounded (run cs h)
Bounded-run [] h b = b
Bounded-run (c ∷ cs) h b = Bounded-run cs (step c h) (Bounded-step c h b)

-- The hub of a new syncer.
abbrev pub new_hub : Hub
new_hub = record { subscribers = []; closed = []; cancelled = []; next = 0; stopped = false }

count-contains : (n : ℕ) (ns : List ℕ) → contains n ns ≡ true → 0 < count n ns
count-contains n [] h = cc
count-contains n (m ∷ ms) h = ground (arith, count-contains n ms)

-- Whatever subscriptions are opened, closed any number of times, notified and stopped, in any order:
-- no channel is closed twice, and a channel that is still in the list of subscribers, to which
-- events are sent, has not been closed.
pub no_channel_panics :
    (cs : List Call) (n : ℕ)
    → let h = run cs new_hub in
      (count n h.closed ≤ 1)
      × ((contains n (numbers h.subscribers) ≡ false) ⊎ (count n h.closed ≡ 0))
unfolding total
no_channel_panics cs n =
    let b : Bounded (run cs new_hub) = Bounded-run cs new_hub (λ k. (omega arith, λ p. refl)) in
    (
      omega (arith, b n),
      elim (Bool-cases (contains n (numbers (run cs new_hub).subscribers))) [
        | inl e ↦ inr (omega (arith, b n, count-contains n _ e))
        | inr e ↦ inl e
      ],
    )
