-- ===== src/Task/Ping/Misread.antt =====
-- Outputs that the parsers of task/ping.go do not read as the device means them.
use zabbix_ddl_monitor.Base.{
  ℕ, true, false, List, [], ◌∷◌, ◌++◌, ◌≡◌, refl, sym, subst, append_assoc,
}
use zabbix_ddl_monitor.Base.Text.{
  Text, codes, is_space, contains, trim_left, trim_right, trim_space, to_lower,
}
use zabbix_ddl_monitor.Base.Text.Search.{
  contains-append, trim_space_solid, contains-tail, trim_right-append,
}
use zabbix_ddl_monitor.Task.Ping.Output.{
  PingData, finished, with_loss, with_rate, parse_nxos, nxos_loss, parse_cisco, cisco_rate,
  parse_huawei, huawei_loss, parse_generic, has_any,
}

-- A line that ends in `word` and `d` has a pattern that `before` and then `word` end in.
ends_solid :
    (c : ℕ) (before word : Text) (d : ℕ)
    → is_space c ≡ false
    → is_space d ≡ false
    → trim_space (c ∷ (before ++ (word ++ (d ∷ [])))) ≡ c ∷ (before ++ (word ++ (d ∷ [])))
ends_solid c before word d e f =
    subst (λ t. trim_space (c ∷ t) ≡ c ∷ t) (append_assoc before word (d ∷ []))
      (trim_space_solid c (before ++ word) d e f)

ends_found :
    (c : ℕ) (before word pattern : Text)
    → contains pattern (c ∷ (before ++ (word ++ (pattern ++ [])))) ≡ true
ends_found c before word pattern =
    subst (λ t. contains pattern (c ∷ t) ≡ true) (append_assoc before word (pattern ++ []))
      (contains-append pattern (c ∷ (before ++ word)) [])

-- A line of NX-OS whose loss ends in "0.00%", such as 20.00% and 100.00%, is read as no loss.
pub nxos_reads_clear :
    (c : ℕ) (before : Text) (lines : List Text) (d : PingData)
    → is_space c ≡ false
    → parse_nxos ((c ∷ (before ++ codes "0.00% packet loss")) ∷ lines) d ≡ finished (with_loss 0 d)
unfolding parse_nxos nxos_loss
nxos_reads_clear c before lines d e =
    rw (ends_solid c before (codes "0.00% packet los") 115 e refl) (
      rw (ends_found c before (codes "0.00% ") (codes "packet loss"))
        (rw (contains-append (codes "0.00% packet loss") (c ∷ before) []) refl))

-- A line of a Huawei router whose loss ends in "0%", such as 20%, is read as no loss, unless it has
-- "100% packet loss" or, in any case of letters, "request time out".
pub huawei_reads_clear :
    (c : ℕ) (before : Text) (lines : List Text) (d : PingData)
    → is_space c ≡ false
    → contains (codes "request time out") (to_lower (c ∷ (before ++ codes "0% packet loss")))
      ≡ false
    → contains (codes "100% packet loss") (c ∷ (before ++ codes "0% packet loss")) ≡ false
    → parse_huawei ((c ∷ (before ++ codes "0% packet loss")) ∷ lines) d ≡ finished (with_loss 0 d)
unfolding parse_huawei huawei_loss
huawei_reads_clear c before lines d e f g =
    rw (ends_solid c before (codes "0% packet los") 115 e refl) (
      rw f (
        rw (ends_found c before (codes "0% ") (codes "packet loss"))
          (rw g (rw (contains-append (codes "0% packet loss") (c ∷ before) []) refl))))

-- Text of an unknown platform that says "100% packet loss" is read as a success, since it contains
-- "0% packet loss" too.
pub generic_reads_clear :
    (s : Text) (d : PingData)
    → contains (codes "100% packet loss") (to_lower s) ≡ true
    → parse_generic s d ≡ finished (with_rate 100 d)
unfolding parse_generic has_any
generic_reads_clear s d h =
    let shorter : contains (codes "00% packet loss") (to_lower s) ≡ true =
      contains-tail 49 (codes "00% packet loss") (to_lower s) h in
    let shortest : contains (codes "0% packet loss") (to_lower s) ≡ true =
      contains-tail 48 (codes "0% packet loss") (to_lower s) shorter in
    rw shortest refl

said :
    (tens : ℕ) (after : Text)
    → trim_space (codes "Success rate is " ++ (tens ∷ (codes "0 percent (" ++ after)))
      ≡ codes "Success rate is " ++ (tens ∷ (codes "0 percent (" ++ trim_right after))
unfolding trim_space trim_left
said tens after =
    trim_right-append (codes "Success rate is " ++ (tens ∷ codes "0 percent ")) 40 after refl

-- A line of IOS whose success rate ends in a 0, but is not 100, is read as the loss of everything:
-- "Success rate is 80 percent" contains "0 percent".
pub cisco_reads_lost :
    (tens : ℕ) (after : Text) (lines : List Text) (d : PingData)
    → contains
        (codes "100 percent")
        (trim_space (codes "Success rate is " ++ (tens ∷ (codes "0 percent (" ++ after))))
      ≡ false
    → parse_cisco ((codes "Success rate is " ++ (tens ∷ (codes "0 percent (" ++ after))) ∷ lines) d
      ≡ finished (with_rate 0 d)
unfolding parse_cisco cisco_rate
cisco_reads_lost tens after lines d h = rw (said tens after) (
    rw
      (contains-append (codes "Success rate is") []
        (32 ∷ tens ∷ (codes "0 percent (" ++ trim_right after)))
      (rw (sym (said tens after)) (
        rw h (
          rw (said tens after) (
            rw
              (contains-append (codes "0 percent") (codes "Success rate is " ++ (tens ∷ []))
                (codes " (" ++ trim_right after))
              refl)))))
