-- ===== src/Manager/Queue/Laws.antt =====
-- The lines that a queue of manager/interval_queue.go holds for an IP.
use zabbix_ddl_monitor.Base.{
  ℕ, suc, ◌+◌, ◌-◌, String, List, [], ◌∷◌, ◌++◌, str_eq, eq_iff, not, ◌==◌, ◌≡◌, refl, arith,
  if◌then◌else◌,
}
use zabbix_ddl_monitor.Syncer.Line.{Line}
use zabbix_ddl_monitor.Manager.Queue.{remove_first, contains_ip, update_first}

-- How many lines stand under the IP.
abbrev pub count_ip : String → List Line → ℕ
count_ip ip [] = 0
count_ip ip (l ∷ ls) = if str_eq l.ip ip then suc (count_ip ip ls) else count_ip ip ls

pub count_ip-append :
    (ip : String) (ls ms : List Line) → count_ip ip (ls ++ ms) ≡ count_ip ip ls + count_ip ip ms
count_ip-append ip [] ms = omega arith
count_ip-append ip (l ∷ ls) ms = ground (arith, count_ip-append ip ls ms)

pub count_ip-remove_first :
    (ip jp : String) (ls : List Line)
    → count_ip jp (remove_first ip ls)
      ≡ (if str_eq ip jp then count_ip jp ls - 1 else count_ip jp ls)
unfolding remove_first
count_ip-remove_first ip jp [] = ground arith
count_ip-remove_first ip jp (l ∷ ls) =
    ground (arith, eq_iff l.ip ip, eq_iff l.ip jp, eq_iff ip jp, count_ip-remove_first ip jp ls)

pub contains_ip-count :
    (ip : String) (ls : List Line) → contains_ip ip ls ≡ not (count_ip ip ls == 0)
unfolding contains_ip
contains_ip-count ip [] = refl
contains_ip-count ip (l ∷ ls) = ground (arith, contains_ip-count ip ls)

pub count_ip-update_first :
    (ip jp : String) (l : Line) (ls : List Line)
    → l.ip ≡ ip
    → count_ip jp (update_first ip l ls) ≡ count_ip jp ls
unfolding update_first
count_ip-update_first ip jp l [] e = refl
count_ip-update_first ip jp l (m ∷ ls) e =
    ground
      (arith, eq_iff m.ip ip, eq_iff l.ip jp, eq_iff m.ip jp, count_ip-update_first ip jp l ls e)
