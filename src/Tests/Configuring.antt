-- ===== src/Tests/Configuring.antt =====
-- Runs of the builder and the validation of configurations.
use zabbix_ddl_monitor.Base.{ℕ, ◌*◌, true, false, ltb, none, List, [], ◌∷◌, ◌≡◌, ◌↔◌, refl, arith}
use zabbix_ddl_monitor.Connection.Config.{Floats, Config, validate}
use zabbix_ddl_monitor.Connection.Config.Validity.{IsValid, validate_iff}
use zabbix_ddl_monitor.Connection.Config.Builder.{new_config, with_basic_auth, with_protocol}
use zabbix_ddl_monitor.Connection.Config.Builder.Calls.{
  IsOrdered, Call, timeouts, connection_pool, smart_rebuild,
}

-- Fractions of naturals, all with a numerator and a denominator, in place of Go's float64.
abbrev ratios : Floats
ratios = record {
  Float = ℕ × ℕ;
  literal = λ n d. (n, d);
  below = λ (a, b) (c, d). ltb (a * d) (c * b);
}

ratios-IsOrdered : IsOrdered ratios
ratios-IsOrdered = record {
  one_and_a_half = refl;
  fifth_positive = refl;
  fifth_small = refl;
  asymmetric = λ (a, b) (c, d) h. asymmetric_ltb (a * d) (c * b) h;
}
  where
    asymmetric_ltb : (m n : ℕ) → ltb m n ≡ true → ltb n m ≡ false
    asymmetric_ltb m n h = ground arith

-- Negative timeouts are ignored, and a smaller pool is asked for.
abbrev calls : List (Call ratios)
calls =
    timeouts 18446744073709551615 0 5000000000 0
    ∷ connection_pool 3 1 60000000000 30000000000
    ∷ smart_rebuild true 50 0 (1, 10) 0
    ∷ []

abbrev started : Config (ℕ × ℕ)
started =
    with_protocol ratios "ssh" "cisco_iosxe"
      (with_basic_auth ratios "10.1.0.1" "u" "p" (new_config ratios))

validate_iff_example : (validate ratios started ≡ none) ↔ IsValid ratios started
validate_iff_example = validate_iff ratios started
