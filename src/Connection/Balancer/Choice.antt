-- ===== src/Connection/Balancer/Choice.antt =====
-- What the load balancers of connection/pool_enhanced.go choose.
use zabbix_ddl_monitor.Base.{
  ℕ, zero, suc, ◌+◌, ◌<◌, ◌%◌, ◌^◌, true, false, ◌&&◌, Option, none, some, List, [], ◌∷◌, length,
  ◌≡◌, ◌⊎◌, inl, inr, refl, subst, arith, if_cases, Among,
}
use zabbix_ddl_monitor.Base.Int64
use zabbix_ddl_monitor.Connection.Conn.{Conn}
use zabbix_ddl_monitor.Connection.Balancer.{
  is_candidate, candidates, at, select_round_robin, least_from, select_least_used, pick_next,
}

candidates-Among :
    (c : Conn) (cs : List Conn) → Among c (candidates cs) → Among c cs × (is_candidate c ≡ true)
unfolding candidates
candidates-Among c [] a = absurd a
candidates-Among c (d ∷ cs) a =
    if_cases (λ ds. Among c ds → Among c (d ∷ cs) × (is_candidate c ≡ true)) (is_candidate d)
      (d ∷ candidates cs) (candidates cs)
      (λ e b. elim b [
        | inl q ↦ (inl q, subst (λ x. is_candidate x ≡ true) q e)
        | inr r ↦ let p = candidates-Among c cs r in (inr p.0, p.1)
      ])
      (λ e b. let p = candidates-Among c cs b in (inr p.0, p.1)) a

at-inside : (n : ℕ) (cs : List Conn) → n < length cs → (c : Conn) × (at n cs ≡ some c) × Among c cs
at-inside n [] b = absurd (omega arith)
at-inside zero (c ∷ cs) b = (c, refl, inl refl)
at-inside (suc n) (c ∷ cs) b = let p = at-inside n cs (omega arith) in (p.0, p.1, inr p.2)

-- No candidate has a use below this one.
abbrev pub NoneBelow : ℕ → List Conn → Type 0
NoneBelow count [] = Unit
NoneBelow count (c ∷ cs) =
    ((is_candidate c && Int64.ltb64 c.usage_count count) ≡ false) × NoneBelow count cs

-- A candidate of the list with the least use of all.
abbrev pub IsLeast : List Conn → Conn → Type 0
IsLeast cs d = Among d cs × (is_candidate d ≡ true) × NoneBelow d.usage_count cs

abbrev Found : List Conn → ℕ → Option Conn → Option Conn → Type 0
Found cs least chosen r =
    ((r ≡ chosen) × NoneBelow least cs)
    ⊎ ((d : Conn) × (r ≡ some d) × IsLeast cs d × (Int64.ltb64 d.usage_count least ≡ true))

better-Found :
    (c : Conn) (cs : List Conn) (least : ℕ) (chosen r : Option Conn)
    → (is_candidate c && Int64.ltb64 c.usage_count least) ≡ true
    → Found cs c.usage_count (some c) r
    → Found (c ∷ cs) least chosen r
better-Found c cs least chosen r e (inl (q, b)) =
    inr (c, q, (inl refl, ground arith, (ground arith, b)), ground arith)
better-Found c cs least chosen r e (inr (d, q, (a, k, b), l)) =
    inr (d, q, (inr a, k, (ground arith, b)), ground arith)

same-Found :
    (c : Conn) (cs : List Conn) (least : ℕ) (chosen r : Option Conn)
    → (is_candidate c && Int64.ltb64 c.usage_count least) ≡ false
    → Found cs least chosen r
    → Found (c ∷ cs) least chosen r
same-Found c cs least chosen r e (inl (q, b)) = inl (q, (e, b))
same-Found c cs least chosen r e (inr (d, q, (a, k, b), l)) =
    inr (d, q, (inr a, k, (ground arith, b)), l)

least_from-Found :
    (cs : List Conn) (least : ℕ) (chosen : Option Conn)
    → Found cs least chosen (least_from cs least chosen)
unfolding least_from
least_from-Found [] least chosen = inl (refl, tt)
least_from-Found (c ∷ cs) least chosen =
    if_cases (Found (c ∷ cs) least chosen) (is_candidate c && Int64.ltb64 c.usage_count least)
      (least_from cs c.usage_count (some c)) (least_from cs least chosen)
      (λ e.
        better-Found c cs least chosen (least_from cs c.usage_count (some c)) e
          (least_from-Found cs c.usage_count (some c)))
      (λ e.
        same-Found c cs least chosen (least_from cs least chosen) e
          (least_from-Found cs least chosen))

-- The balancer by the least use chooses a candidate of the list with the least use of all, or nothing
-- if no candidate has a use below the greatest int64.
pub select_least_used-IsLeast :
    (cs : List Conn)
    → ((select_least_used cs ≡ none) × NoneBelow 9223372036854775807 cs)
      ⊎ ((d : Conn) × (select_least_used cs ≡ some d) × IsLeast cs d)
unfolding select_least_used
select_least_used-IsLeast cs = elim (least_from-Found cs 9223372036854775807 none) [
  | inl (q, b) ↦ inl (q, b)
  | inr (d, q, l, b) ↦ inr (d, q, l)
]

-- The round-robin balancer chooses a candidate of the list whenever there is one, and else nothing.
pub select_round_robin_serves :
    (cs : List Conn) (counter : ℕ)
    → (((select_round_robin cs counter).1 ≡ none) × (candidates cs ≡ []))
      ⊎ ((c : Conn) × ((select_round_robin cs counter).1 ≡ some c)
          × Among c cs
          × (is_candidate c ≡ true))
unfolding select_round_robin
select_round_robin_serves cs counter =
    by_candidates (candidates cs) (λ c a. candidates-Among c cs a)
  where
    by_candidates :
        (ds : List Conn)
        → ((c : Conn) → Among c ds → Among c cs × (is_candidate c ≡ true))
        → (((pick_next ds counter).1 ≡ none) × (ds ≡ []))
          ⊎ ((c : Conn) × ((pick_next ds counter).1 ≡ some c)
              × Among c cs
              × (is_candidate c ≡ true))
    by_candidates [] f = inl (refl, refl)
    by_candidates (d ∷ ds) f =
        let p = at-inside (((counter + 1) % 2 ^ 64) % suc (length ds)) (d ∷ ds) (omega arith) in
        let q = f p.0 p.2 in inr (p.0, p.1, q.0, q.1)
