-- ===== src/Base/Int32.antt =====
-- Go's `int32` as bit patterns below 2^32: the atomic counters of a connection.
use Prim.Native.Nat.{ℕ, ◌+◌, ◌%◌, ◌^◌}
use mathlib.Core.Bool.{Bool}
use zabbix_ddl_monitor.Base.Tests.{ltb}

abbrev pub word : ℕ
word = 2 ^ 32

abbrev pub half_word : ℕ
half_word = 2 ^ 31

abbrev pub inc : ℕ → ℕ
inc n = (n + 1) % word

-- Adding -1 is adding 2^32 - 1.
abbrev pub dec : ℕ → ℕ
dec n = (n + 4294967295) % word

abbrev pub ltb32 : ℕ → ℕ → Bool
ltb32 a b = ltb ((a + half_word) % word) ((b + half_word) % word)
