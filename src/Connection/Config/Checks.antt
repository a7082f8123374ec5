-- ===== src/Connection/Config/Checks.antt =====
-- The tests of Validate in connection/config_enhanced.go, one by one and in sequence.
use zabbix_ddl_monitor.Base.{
  ℕ, ◌≤◌, ◌<◌, ◌%◌, Bool, true, false, not, ◌&&◌, ◌||◌, String, Option, none, some, List, [], ◌∷◌,
  str_eq, eq_iff, Among, ◌≡◌, ◌≢◌, ◌↔◌, ◌⊎◌, inl, inr, refl, sym, arith, Bool-cases, if◌then◌else◌,
}
use zabbix_ddl_monitor.Base.Int64.{rank, leb64, ltb64, word, half_word}
use zabbix_ddl_monitor.Connection.Config.{
  SshConfig, ScrapliConfig, ConfigError, first_failure, or_else, one_of, ssh_checks, scrapli_checks,
  validate_ssh, validate_scrapli, if_given,
}

-- The numbers above 0, and those not below 0, as patterns.
abbrev pub IsPositive : ℕ → Type 0
IsPositive n = (0 < n % word) × (n % word < half_word)

abbrev pub IsNonnegative : ℕ → Type 0
IsNonnegative n = n % word < half_word

pub IsPositive-iff : (n : ℕ) → (leb64 n 0 ≡ false) ↔ IsPositive n
IsPositive-iff n = ground arith

pub IsNonnegative-iff : (n : ℕ) → (ltb64 n 0 ≡ false) ↔ IsNonnegative n
IsNonnegative-iff n = ground arith

-- All of these hold.
abbrev pub All : List (Type 0) → Type 0
All [] = Unit {0}
All (P ∷ Ps) = P × All Ps

-- None of the tests holds.
abbrev pub AllPass : List (Bool × ConfigError) → Type 0
AllPass [] = Unit {0}
AllPass ((fails, e) ∷ checks) = (fails ≡ false) × AllPass checks

pub first_failure_iff :
    (checks : List (Bool × ConfigError)) → (first_failure checks ≡ none) ↔ AllPass checks
first_failure_iff [] = (λ e. tt, λ a. refl)
first_failure_iff ((true, e) ∷ checks) = (λ h. absurd (ground arith), λ h. absurd (ground arith))
first_failure_iff ((false, e) ∷ checks) =
    (λ h. (refl, (first_failure_iff checks).0 h), λ (h, a). (first_failure_iff checks).1 a)

pub one_of_iff : (s : String) (ns : List String) → (one_of s ns ≡ true) ↔ Among s ns
one_of_iff s [] = (λ h. absurd (ground arith), λ a. absurd a)
one_of_iff s (n ∷ ns) = elim (Bool-cases (str_eq s n)) [
  | inl e ↦ (λ h. inl (sym ((eq_iff s n).0 e)), λ a. rw e refl)
  | inr e ↦ rw e (
    (λ h. inr ((one_of_iff s ns).0 h)),
    (λ a. elim a [
      | inl q ↦ absurd (ground (arith, (eq_iff s n).1 (sym q)))
      | inr b ↦ (one_of_iff s ns).1 b
    ]),
  )
]

-- Empty, or one of these names.
abbrev pub IsNamed : String → List String → Type 0
IsNamed s ns = (s ≡ "") ⊎ Among s ns

abbrev pub IsValidSsh : Option SshConfig → Type 0
IsValidSsh none = Unit {0}
IsValidSsh (some s) = All (
    IsNamed s.auth_method ("password" ∷ "publickey" ∷ "keyboard-interactive" ∷ [])
    ∷ (s.compression_level % word ≤ 9)
    ∷ [])

abbrev pub IsValidScrapli : Option ScrapliConfig → Type 0
IsValidScrapli none = Unit {0}
IsValidScrapli (some s) = All (
    IsNamed s.transport_type ("system" ∷ "ssh2" ∷ "paramiko" ∷ [])
    ∷ IsNonnegative s.comms_read_delay
    ∷ IsPositive s.timeout_ops_default
    ∷ [])

pub chain_iff {ℓ m n} : {A : Type ℓ} {B : Type m} {C : Type n} → (A ↔ B) → (B ↔ C) → (A ↔ C)
chain_iff (f, g) (h, k) = (λ a. h (f a), λ c. g (k c))

pub both_iff {ℓ m n o} :
    {A : Type ℓ} {B : Type m} {C : Type n} {D : Type o} → (A ↔ B) → (C ↔ D) → ((A × C) ↔ (B × D))
both_iff (f, g) (h, k) = (λ (a, c). (f a, h c), λ (b, d). (g b, k d))

pub last_iff {ℓ m} : {A : Type ℓ} {B : Type m} → (A ↔ B) → ((A × Unit {0}) ↔ (B × Unit {0}))
last_iff e = both_iff e (λ u. u, λ u. u)

pub alone_iff {ℓ m} : {A : Type ℓ} {B : Type m} → (A ↔ B) → (A ↔ (B × Unit {0}))
alone_iff (f, g) = (λ a. (f a, tt), λ (b, u). g b)

pub or_else_iff : (a b : Option ConfigError) → (or_else a b ≡ none) ↔ ((a ≡ none) × (b ≡ none))
or_else_iff none b = (λ h. (refl, h), λ (e, h). h)
or_else_iff (some e) b = (λ h. absurd (ground arith), λ (q, h). absurd (ground arith))

-- A part of Validate that a flag turns on.
pub enabled_iff {ℓ} :
    {A : Type ℓ} (b : Bool) (o : Option ConfigError)
    → ((o ≡ none) ↔ A)
    → ((if b then o else none) ≡ none) ↔ (b ≡ true → A)
enabled_iff true o (f, g) = (λ h e. f h, λ k. g (k refl))
enabled_iff false o (f, g) = (λ h e. absurd (ground arith), λ k. refl)

pub set_iff : (s : String) → (str_eq s "" ≡ false) ↔ (s ≢ "")
set_iff s = ground (arith, eq_iff s "")

pub pass_iff : (b : Bool) → (b ≡ false) ↔ (b ≡ false)
pass_iff b = (λ h. h, λ h. h)

pub IsNamed-iff :
    (s : String) (ns : List String)
    → ((not (str_eq s "") && not (one_of s ns)) ≡ false) ↔ IsNamed s ns
IsNamed-iff s ns = elim (Bool-cases (str_eq s "")) [
  | inl e ↦ (λ h. inl ((eq_iff s "").0 e), λ n. rw e refl)
  | inr e ↦ rw e (
    (λ h. inr ((one_of_iff s ns).0 (ground arith))),
    (λ n. elim n [
      | inl q ↦ absurd (ground (arith, (eq_iff s "").1 q))
      | inr a ↦ ground (arith, (one_of_iff s ns).1 a)
    ]),
  )
]

pub validate_ssh_iff : (s : Option SshConfig) → (if_given validate_ssh s ≡ none) ↔ IsValidSsh s
unfolding validate_ssh
validate_ssh_iff none = (λ h. tt, λ u. refl)
validate_ssh_iff (some s) = chain_iff (first_failure_iff (ssh_checks s)) (
    both_iff (IsNamed-iff s.auth_method ("password" ∷ "publickey" ∷ "keyboard-interactive" ∷ []))
      (last_iff (compression_iff s.compression_level)))
  where
    compression_iff : (n : ℕ) → ((ltb64 n 0 || ltb64 9 n) ≡ false) ↔ (n % word ≤ 9)
    compression_iff n = ground arith

pub validate_scrapli_iff :
    (s : Option ScrapliConfig) → (if_given validate_scrapli s ≡ none) ↔ IsValidScrapli s
unfolding validate_scrapli
validate_scrapli_iff none = (λ h. tt, λ u. refl)
validate_scrapli_iff (some s) = chain_iff (first_failure_iff (scrapli_checks s)) (
    both_iff (IsNamed-iff s.transport_type ("system" ∷ "ssh2" ∷ "paramiko" ∷ [])) (
      both_iff (IsNonnegative-iff s.comms_read_delay)
        (last_iff (IsPositive-iff s.timeout_ops_default))))

pub port_iff :
    (n : ℕ) → ((leb64 n 0 || ltb64 65535 n) ≡ false) ↔ ((0 < n % word) × (n % word ≤ 65535))
port_iff n = ground arith

pub order_iff : (a b : ℕ) → (ltb64 a b ≡ false) ↔ (rank b ≤ rank a)
order_iff a b = ground arith
