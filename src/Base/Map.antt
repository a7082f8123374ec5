-- ===== src/Base/Map.antt =====
-- Go maps with string keys, as association lists: the order of the list is the order in which a
-- `range` loop visits the entries.
use Prim.Native.String.{String}
use mathlib.Core.Path.{◌≡◌, refl}
use mathlib.Core.Option.{Option, none, some}
use mathlib.Core.List.{List, [], ◌∷◌}
use native.Mathlib.Omega.{arith}
use text.Mathlib.Text.{◌==◌}
use text.Mathlib.TextEquality.{eq_iff}
use zabbix_ddl_monitor.Base.Tests.{if◌then◌else◌}

abbrev pub Map {ℓ} : Type ℓ → Type ℓ
Map V = List (String × V)

module _ {ℓ} {V : Type ℓ} where
  -- m[k]
  unfoldable pub lookup : String → Map V → Option V
  lookup key [] = none
  lookup key ((other, value) ∷ table) = if other == key then some value else lookup key table

  -- m[k] = v
  unfoldable pub insert : String → V → Map V → Map V
  insert key value [] = (key, value) ∷ []
  insert key value ((other, content) ∷ table) =
      if other == key then (key, value) ∷ table else (other, content) ∷ insert key value table

  -- delete(m, k)
  unfoldable pub delete : String → Map V → Map V
  delete key [] = []
  delete key ((other, content) ∷ table) =
      let rest = delete key table in if other == key then rest else (other, content) ∷ rest

  -- No key stands twice.
  abbrev pub Unique : Map V → Type ℓ
  Unique [] = Unit
  Unique ((key, value) ∷ table) = (lookup key table ≡ none) × Unique table

  pub lookup-insert :
      (key other : String) (value : V) (table : Map V)
      → lookup other (insert key value table)
        ≡ (if key == other then some value else lookup other table)
  unfolding lookup insert
  lookup-insert key other value [] = refl
  lookup-insert key other value ((stored, content) ∷ table) = ground (
    arith,
    eq_iff key other,
    eq_iff stored key,
    eq_iff stored other,
    lookup-insert key other value table,
  )

  pub lookup-delete :
      (key other : String) (table : Map V)
      → lookup other (delete key table) ≡ (if key == other then none else lookup other table)
  unfolding lookup delete
  lookup-delete key other [] = ground arith
  lookup-delete key other ((stored, content) ∷ table) = ground (
    arith,
    eq_iff key other,
    eq_iff stored key,
    eq_iff stored other,
    lookup-delete key other table,
  )

  pub insert-Unique :
      (key : String) (value : V) (table : Map V) → Unique table → Unique (insert key value table)
  unfolding insert
  insert-Unique key value [] uniq = (unfold lookup in refl, tt)
  insert-Unique key value ((other, content) ∷ table) uniq = ground (
    arith,
    eq_iff other key,
    eq_iff key other,
    lookup-insert key other value table,
    insert-Unique key value table uniq.1,
  )

  pub delete-Unique : (key : String) (table : Map V) → Unique table → Unique (delete key table)
  unfolding delete
  delete-Unique key [] uniq = tt
  delete-Unique key ((other, content) ∷ table) uniq =
      ground
        (arith, eq_iff key other, lookup-delete key other table, delete-Unique key table uniq.1)
