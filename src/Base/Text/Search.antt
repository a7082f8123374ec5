-- ===== src/Base/Text/Search.antt =====
-- Where a pattern of a text is found again.
use Prim.Native.Nat.{ℕ}
use mathlib.Core.Path.{◌≡◌, refl}
use mathlib.Core.Bool.{true, false}
use mathlib.Core.List.{[], ◌∷◌, ◌++◌}
use native.Mathlib.Omega.{arith}
use zabbix_ddl_monitor.Base.Text.{
  Text, is_space, text_eq, has_prefix, contains, trim_left, trim_right, trim_space,
}

pub has_prefix-append : (p s : Text) → has_prefix p (p ++ s) ≡ true
has_prefix-append [] s = refl
has_prefix-append (c ∷ p) s = ground (arith, has_prefix-append p s)

-- A pattern that stands in a text is found there.
pub contains-append : (p before after : Text) → contains p (before ++ (p ++ after)) ≡ true
unfolding contains
contains-append [] [] [] = refl
contains-append [] [] (c ∷ after) = refl
contains-append (d ∷ p) [] after = ground (arith, has_prefix-append (d ∷ p) after)
contains-append p (c ∷ before) after = ground (arith, contains-append p before after)

-- Trimming leaves what stands before a character that is no white space.
pub trim_right-append :
    (before : Text) (c : ℕ) (after : Text)
    → is_space c ≡ false
    → trim_right (before ++ (c ∷ after)) ≡ before ++ (c ∷ trim_right after)
unfolding trim_right
trim_right-append [] c after e = ground (arith, e)
trim_right-append (d ∷ []) c after e = ground (arith, e)
trim_right-append (d ∷ b ∷ before) c after e =
    ground (arith, trim_right-append (b ∷ before) c after e)

pub trim_left-start : (c : ℕ) (s : Text) → is_space c ≡ false → trim_left (c ∷ s) ≡ c ∷ s
unfolding trim_left
trim_left-start c s e = rw e refl

-- A text that has no white space at its ends is not trimmed.
pub trim_space_solid :
    (c : ℕ) (middle : Text) (d : ℕ)
    → is_space c ≡ false
    → is_space d ≡ false
    → trim_space (c ∷ (middle ++ (d ∷ []))) ≡ c ∷ (middle ++ (d ∷ []))
unfolding trim_space trim_right
trim_space_solid c middle d e f =
    rw (trim_left-start c (middle ++ (d ∷ [])) e) (trim_right-append (c ∷ middle) d [] f)

contains-prefix : (p s : Text) → has_prefix p s ≡ true → contains p s ≡ true
unfolding contains
contains-prefix [] [] h = refl
contains-prefix (c ∷ p) [] h = absurd (ground (arith, h))
contains-prefix p (d ∷ s) h = rw h refl

-- What has a longer pattern has its rest.
pub contains-tail : (c : ℕ) (p s : Text) → contains (c ∷ p) s ≡ true → contains p s ≡ true
unfolding contains
contains-tail c p [] h = absurd (ground (arith, h))
contains-tail c p (d ∷ s) h = ground (arith, contains-prefix p s, contains-tail c p s)

pub text_eq_refl : (s : Text) → text_eq s s ≡ true
text_eq_refl [] = refl
text_eq_refl (c ∷ s) = ground (arith, text_eq_refl s)

pub text_eq_sound : (s t : Text) → text_eq s t ≡ true → s ≡ t
text_eq_sound [] [] h = refl
text_eq_sound [] (d ∷ t) h = absurd (ground (arith, h))
text_eq_sound (c ∷ s) [] h = absurd (ground (arith, h))
text_eq_sound (c ∷ s) (d ∷ t) h = ground (arith, text_eq_sound s t)
