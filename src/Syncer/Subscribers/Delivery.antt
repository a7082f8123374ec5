-- ===== src/Syncer/Subscribers/Delivery.antt =====
-- What reaches the subscribers of syncer/syncer.go.
use zabbix_ddl_monitor.Base.{
  ℕ, suc, ◌+◌, ◌≤◌, Bool, List, [], ◌∷◌, ◌++◌, ◌≡◌, refl, arith, length, length-append, sym, ◌∙◌,
}
use mathlib.Core.List.{append_assoc, append-nil}
use zabbix_ddl_monitor.Syncer.Line.{LineChangeEvent}
use zabbix_ddl_monitor.Syncer.Subscribers.{Channel, capacity, send, send_to_all, notify}

-- What every channel would hold with room for all events.
abbrev pub append_all : List LineChangeEvent → List Channel → List Channel
append_all es [] = []
append_all es (c ∷ cs) = record c { queued = c.queued ++ es } ∷ append_all es cs

-- Every channel has room for so many more events.
abbrev pub HasRoom : ℕ → List Channel → Type 0
HasRoom n [] = Unit {0}
HasRoom n (c ∷ cs) = (length c.queued + n ≤ capacity) × HasRoom n cs

send_room :
    (room : Bool) (e : LineChangeEvent) (c : Channel)
    → length c.queued + 1 ≤ capacity
    → send room e c ≡ record c { queued = c.queued ++ e ∷ [] }
unfolding send
send_room room e c h = ground arith

send_to_all-append_all :
    (room : ℕ → Bool) (e : LineChangeEvent) (cs : List Channel)
    → HasRoom 1 cs
    → send_to_all room e cs ≡ append_all (e ∷ []) cs
unfolding send_to_all
send_to_all-append_all room e [] h = refl
send_to_all-append_all room e (c ∷ cs) h =
    cc (send_room (room c.number) e c h.0, send_to_all-append_all room e cs h.1)

HasRoom-append_all :
    (n : ℕ) (e : LineChangeEvent) (cs : List Channel)
    → HasRoom (suc n) cs
    → HasRoom n (append_all (e ∷ []) cs)
HasRoom-append_all n e [] h = tt
HasRoom-append_all n e (c ∷ cs) h =
    (omega (arith, length-append c.queued (e ∷ []), h.0), HasRoom-append_all n e cs h.1)

HasRoom-le : (m n : ℕ) (cs : List Channel) → m ≤ n → HasRoom n cs → HasRoom m cs
HasRoom-le m n [] le h = tt
HasRoom-le m n (c ∷ cs) le h = (omega (arith, h.0), HasRoom-le m n cs le h.1)

append_all-append :
    (e : LineChangeEvent) (es : List LineChangeEvent) (cs : List Channel)
    → append_all es (append_all (e ∷ []) cs) ≡ append_all (e ∷ es) cs
append_all-append e es [] = refl
append_all-append e es (c ∷ cs) = simp (append_assoc, append_all-append e es cs)

append_all-nil : (cs : List Channel) → append_all [] cs ≡ cs
append_all-nil [] = refl
append_all-nil (c ∷ cs) = simp (append-nil, append_all-nil cs)

-- As long as every subscriber's channel has room for the events, each subscriber gets all of them,
-- in their order, behind what it had.
pub notify-append_all :
    (room : LineChangeEvent → ℕ → Bool) (es : List LineChangeEvent) (cs : List Channel)
    → HasRoom (length es) cs
    → notify room es cs ≡ append_all es cs
unfolding notify
notify-append_all room [] cs h = sym (append_all-nil cs)
notify-append_all room (e ∷ es) cs h =
    rw (send_to_all-append_all (room e) e cs (HasRoom-le 1 _ cs (omega arith) h))
      (notify-append_all room es _ (HasRoom-append_all _ e cs h) ∙ append_all-append e es cs)
