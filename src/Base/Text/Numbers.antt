-- ===== src/Base/Text/Numbers.antt =====
-- The numbers that Atoi gives.
use Prim.Native.Nat.{ℕ, ◌-◌, ◌^◌, ◌<◌}
use mathlib.Core.Option.{Option, none, some}
use mathlib.Core.List.{[], ◌∷◌}
use native.Mathlib.Omega.{arith}
use zabbix_ddl_monitor.Base.Tests.{leb, ◌==◌, if◌then◌else◌, if_both, if_cases}
use zabbix_ddl_monitor.Base.Text.{Text, unsigned, in_range, negated, atoi}

abbrev pub IsWord : Option ℕ → Type 0
IsWord none = Unit {0}
IsWord (some n) = n < 2 ^ 64

in_range-IsWord : (bound : ℕ) (o : Option ℕ) → bound < 2 ^ 64 → IsWord (in_range bound o)
in_range-IsWord bound none b = tt
in_range-IsWord bound (some n) b =
    if_cases IsWord (leb n bound) (some n) none (λ e. ground (arith, e)) (λ e. tt)

negated-IsWord : (o : Option ℕ) → IsWord (negated o)
negated-IsWord none = tt
negated-IsWord (some n) = omega arith

-- Atoi gives an int.
pub atoi-IsWord : (s : Text) → IsWord (atoi s)
unfolding atoi
atoi-IsWord [] = tt
atoi-IsWord (c ∷ s) =
    if_both IsWord (c == b'-') (negated (in_range (2 ^ 63) (unsigned s)))
      (if c == b'+'
        then in_range (2 ^ 63 - 1) (unsigned s)
        else in_range (2 ^ 63 - 1) (unsigned (c ∷ s)))
      (negated-IsWord (in_range (2 ^ 63) (unsigned s)))
      (if_both IsWord (c == b'+') (in_range (2 ^ 63 - 1) (unsigned s))
        (in_range (2 ^ 63 - 1) (unsigned (c ∷ s)))
        (in_range-IsWord (2 ^ 63 - 1) (unsigned s) (omega arith))
        (in_range-IsWord (2 ^ 63 - 1) (unsigned (c ∷ s)) (omega arith)))
