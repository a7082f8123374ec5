-- ===== src/Syncer/Line.antt =====
-- syncer/types.go: lines, routers, change events and the hash of a line.
use zabbix_ddl_monitor.Base.{ℕ, zero, suc, ◌/◌, ◌%◌, String, List, [], ◌∷◌, ◌++◌}

pub record Router : Type 0 where
  pub ip : String
  pub username : String
  pub password : String
  pub platform : String
  pub protocol : String

-- The interval is an int64 of nanoseconds and the hash a uint64, as bit patterns.
pub record Line : Type 0 where
  pub id : String
  pub ip : String
  pub interval : ℕ
  pub router : Router
  pub hash : ℕ

pub data ChangeType : Type 0 where
  line_create line_update line_delete : ChangeType

-- The value of the constant (`iota + 1`).
abbrev pub change_code : ChangeType → ℕ
change_code line_create = 1
change_code line_update = 2
change_code line_delete = 3

pub record LineChangeEvent : Type 0 where
  pub kind : ChangeType
  pub line : Line
  pub version : ℕ  -- int64

-- What the hash takes from outside: the bytes of a string, and FNV-1a 64 of Go's hash/fnv.
pub record Hasher : Type 0 where
  pub bytes : String → List ℕ
  pub sum64 : List ℕ → ℕ

-- The little-endian bytes of a word, least significant first.
unfoldable pub little_endian : ℕ → ℕ → List ℕ
little_endian zero n = []
little_endian (suc k) n = n % 256 ∷ little_endian k (n / 256)

-- The bytes that ComputeHash writes; the router's protocol is not among them.
unfoldable pub hash_input : Hasher → Line → List ℕ
hash_input h l =
    bytes l.id
    ++ (bytes l.ip
        ++ (little_endian 8 l.interval
            ++ (bytes l.router.ip
                ++ (bytes l.router.username
                    ++ (bytes l.router.password ++ bytes l.router.platform)))))
  where
    open h use {bytes}

-- ComputeHash
unfoldable pub compute_hash : Hasher → Line → Line
unfolding hash_input
compute_hash h l = record l { hash = h.sum64 (hash_input h l) }
