-- ===== src/Base/Int64.antt =====
-- Go's `int` and `int64` as bit patterns below 2^64, with the order and the wrap-around of two's
-- complement. A pattern below 2^63 stands for itself, one above for a negative number.
use Prim.Native.Nat.{ℕ, ◌+◌, ◌%◌, ◌^◌, ◌<◌}
use mathlib.Core.Path.{◌≡◌}
use mathlib.Core.Bool.{Bool}
use native.Mathlib.Omega.{arith}
use zabbix_ddl_monitor.Base.Tests.{ltb, leb}

abbrev pub word : ℕ
word = 2 ^ 64

abbrev pub half_word : ℕ
half_word = 2 ^ 63

-- The place of a pattern in the signed order.
abbrev pub rank : ℕ → ℕ
rank n = (n + half_word) % word

abbrev pub inc : ℕ → ℕ
inc n = (n + 1) % word

-- Adding -1 is adding 2^64 - 1.
abbrev pub dec : ℕ → ℕ
dec n = (n + 18446744073709551615) % word

abbrev pub leb64 : ℕ → ℕ → Bool
leb64 a b = leb (rank a) (rank b)

abbrev pub ltb64 : ℕ → ℕ → Bool
ltb64 a b = ltb (rank a) (rank b)

-- The patterns of the numbers that are not negative.
abbrev pub IsNonneg : ℕ → Type 0
IsNonneg n = n < half_word

pub leb64_nonneg : (a b : ℕ) → IsNonneg a → IsNonneg b → leb64 a b ≡ leb a b
leb64_nonneg a b p q = ground arith

pub ltb64_nonneg : (a b : ℕ) → IsNonneg a → IsNonneg b → ltb64 a b ≡ ltb a b
ltb64_nonneg a b p q = ground arith
