-- ===== src/Task/Zabbix/Metrics.antt =====
-- What task/zabbixSenderHandler.go sends for the results, and when it reports an error.
use zabbix_ddl_monitor.Base.{
  ℕ, ◌≤◌, Bool, true, false, not, ◌&&◌, ◌||◌, Option, none, some, List, [], ◌∷◌, ◌++◌, map, str_eq,
  ltb, ◌≡◌, ◌↔◌, inl, inr, refl, sym, ap, subst, ◌∙◌, arith, append_assoc, append_nil,
  if◌then◌else◌, if_both, Bool-cases,
}
use zabbix_ddl_monitor.Base.Int64
use zabbix_ddl_monitor.Base.Map.{lookup}
use zabbix_ddl_monitor.Base.Text.{Text, codes, text_eq, decimal}
use zabbix_ddl_monitor.Base.Text.Numbers.{IsWord}
use zabbix_ddl_monitor.Base.Text.Search.{text_eq_sound}
use zabbix_ddl_monitor.Task.Zabbix.{
  dedicated_line_ping, dedicated_line_error_detail, Metric, Event, as_text, as_int, metric, of_loss,
  of_status, metric_of, collect, count_active, count_trapper, Reply, sent, send_failed,
  server_failed, handle_result, is_error,
}

pub collect-map : (es : List Event) (ms : List Metric) → collect es ms ≡ ms ++ map metric_of es
unfolding collect
collect-map [] ms = sym (append_nil ms)
collect-map (e ∷ es) ms =
    collect-map es (ms ++ metric_of e ∷ []) ∙ append_assoc ms (metric_of e ∷ []) (map metric_of es)

of_loss-active : (o : Option ℕ) (e : Event) → (of_loss o e).active ≡ false
of_loss-active none e = refl
of_loss-active (some n) e =
    if_both (λ (m : Metric). m.active ≡ false) (Int64.leb64 0 n && Int64.leb64 n 100)
      (metric dedicated_line_ping (decimal n) e)
      (metric dedicated_line_error_detail (codes "PacketLossOutOfRange") e) refl refl

of_status-active : (o : Option Text) (e : Event) → (of_status o e).active ≡ false
of_status-active none e = refl
of_status-active (some s) e =
    if_both (λ (m : Metric). m.active ≡ false) (text_eq s (codes "CheckFinished"))
      (of_loss (as_int (lookup "packet_loss" e.values)) e) (metric dedicated_line_error_detail s e)
      (of_loss-active (as_int (lookup "packet_loss" e.values)) e) refl

metric_of-active : (e : Event) → (metric_of e).active ≡ false
unfolding metric_of
metric_of-active e = of_status-active (as_text (lookup "status" e.values)) e

active-map : (es : List Event) → count_active (map metric_of es) ≡ 0
unfolding count_active
active-map [] = refl
active-map (e ∷ es) = rw (metric_of-active e) (active-map es)

trapper-map : (e : Event) (es : List Event) → ltb 0 (count_trapper (map metric_of (e ∷ es))) ≡ true
unfolding count_trapper
trapper-map e es = rw (metric_of-active e) (ground arith)

reported :
    (send : List Metric → Reply) (e : Event) (es : List Event)
    → is_error (handle_result send (e ∷ es)) ≡ (
        (send (map metric_of (e ∷ es))).has_error
        || not (str_eq (send (map metric_of (e ∷ es))).trapper_response "success"))
unfolding handle_result
reported send e es =
    rw (collect-map (e ∷ es) [])
      (rw (active-map (e ∷ es), trapper-map e es) (judged (send (map metric_of (e ∷ es)))))
  where
    judged :
        (r : Reply)
        → is_error (
            if r.has_error
            then send_failed
            else if false || (true && not (str_eq r.trapper_response "success"))
            then server_failed
            else sent)
          ≡ (r.has_error || not (str_eq r.trapper_response "success"))
    judged r = ground arith

abbrev pub has_events : List Event → Bool
has_events [] = false
has_events (e ∷ es) = true

-- HandleResult reports an error exactly if there are events, and the sender fails or the server does
-- not answer "success" for trapper metrics; its answer for active metrics never matters.
pub handle_result_iff :
    (send : List Metric → Reply) (es : List Event)
    → is_error (handle_result send es) ≡ (
        has_events es
        && ((send (map metric_of es)).has_error
            || not (str_eq (send (map metric_of es)).trapper_response "success")))
unfolding handle_result
handle_result_iff send [] = refl
handle_result_iff send (e ∷ es) = reported send e es

-- The number of a ping metric.
abbrev pub Pings : Event → Type 0
Pings e =
    (n : ℕ) × (n ≤ 100)
    × (as_text (lookup "status" e.values) ≡ some (codes "CheckFinished"))
    × (as_int (lookup "packet_loss" e.values) ≡ some n)
    × ((metric_of e).value ≡ decimal n)

pub pings_loss :
    (o : Option ℕ) (e : Event)
    → IsWord o
    → (of_loss o e).key ≡ dedicated_line_ping
    → (n : ℕ) × (n ≤ 100) × (o ≡ some n) × ((of_loss o e).value ≡ decimal n)
pings_loss none e w h = absurd (ground (arith, h))
pings_loss (some n) e w h = elim (Bool-cases (Int64.leb64 0 n && Int64.leb64 n 100)) [
  | inl within ↦ (n, ground (arith, within), refl, rw within refl)
  | inr out ↦ absurd (ground (arith, h, out))
]

pub loss_pings : (n : ℕ) (e : Event) → n ≤ 100 → (of_loss (some n) e).key ≡ dedicated_line_ping
loss_pings n e b = ground arith

status_pings :
    (o : Option Text) (l : Option ℕ) (e : Event)
    → as_int (lookup "packet_loss" e.values) ≡ l
    → IsWord l
    → (of_status o e).key ≡ dedicated_line_ping
    → (n : ℕ) × (n ≤ 100)
      × (o ≡ some (codes "CheckFinished"))
      × (l ≡ some n)
      × ((of_status o e).value ≡ decimal n)
status_pings none l e q w h = absurd (ground (arith, h))
status_pings (some s) l e q w h = by_test (text_eq s (codes "CheckFinished")) refl h
  where
    by_test :
        (b : Bool)
        → text_eq s (codes "CheckFinished") ≡ b
        → (if b
            then of_loss (as_int (lookup "packet_loss" e.values)) e
            else metric dedicated_line_error_detail s e).key
          ≡ dedicated_line_ping
        → (n : ℕ) × (n ≤ 100)
          × (some s ≡ some (codes "CheckFinished"))
          × (l ≡ some n)
          × ((if b
                then of_loss (as_int (lookup "packet_loss" e.values)) e
                else metric dedicated_line_error_detail s e).value
              ≡ decimal n)
    by_test true t k =
        let found = pings_loss l e w (subst (λ o. (of_loss o e).key ≡ dedicated_line_ping) q k) in
        (
          found.0,
          found.1,
          ap some (text_eq_sound s (codes "CheckFinished") t),
          found.2,
          ap (λ o. (of_loss o e).value) q ∙ found.3,
        )
    by_test false t k = absurd (ground (arith, k))

-- An event's metric is one of the ping item exactly if its status is "CheckFinished" and its packet
-- loss is an int from 0 to 100; then it has this number.
pub metric_of_iff :
    (e : Event)
    → IsWord (as_int (lookup "packet_loss" e.values))
    → ((metric_of e).key ≡ dedicated_line_ping) ↔ Pings e
unfolding metric_of
metric_of_iff e w = (
  λ h.
      status_pings (as_text (lookup "status" e.values)) (as_int (lookup "packet_loss" e.values)) e
        refl w h,
  λ p. rw p.2 (rw p.3 (loss_pings p.0 e p.1)),
)
