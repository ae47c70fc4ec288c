-- ===== src/Base/MapLaws.antt =====
-- Predicates on all entries of a map, and lookups in a map that another was copied into.
use mathlib.Core.Path.{◌≡◌, refl, ◌∙◌}
use mathlib.Core.Logic.{inl, inr}
use mathlib.Core.Option.{Option, none, some}
use mathlib.Core.List.{[], ◌∷◌}
use native.Mathlib.Omega.{arith}
use vecto.Base.Tests.{Bool-cases}
use vecto.Base.Lists.{All}
use vecto.Base.Text.{Bytes, str_eq, str_eq_iff}
use vecto.Base.Maps.{Dict, lookup, insert, delete, copy_into, lookup-insert}

module _ {V : Type 0} (P : Bytes × V → Type 0) where
  pub All-insert : (k : Bytes) (v : V) (m : Dict V) → P (k, v) → All P m → All P (insert k v m)
  unfolding insert
  All-insert k v [] p h = (p, h)
  All-insert k v ((j, w) ∷ m) p (q, h) = elim (Bool-cases (str_eq j k)) [
    | inl same ↦ rw same (p, h)
    | inr other ↦ rw other (q, All-insert k v m p h)
  ]

  pub All-delete : (k : Bytes) (m : Dict V) → All P m → All P (delete k m)
  unfolding delete
  All-delete k [] h = h
  All-delete k ((j, w) ∷ m) (q, h) = elim (Bool-cases (str_eq j k)) [
    | inl same ↦ rw same (All-delete k m h)
    | inr other ↦ rw other (q, All-delete k m h)
  ]

  pub All-copy_into : (dst src : Dict V) → All P dst → All P src → All P (copy_into dst src)
  unfolding copy_into
  All-copy_into dst [] h k = h
  All-copy_into dst ((key, v) ∷ src) h (p, k) =
      All-copy_into (insert key v dst) src (All-insert key v dst p h) k

-- The value of the first option that has one.
abbrev pub first_some {ℓ} : {A : Type ℓ} → Option A → Option A → Option A
first_some (some a) o = some a
first_some none o = o

module _ {V : Type 0} where
  -- No key stands twice, as in every Go map.
  abbrev pub Distinct : Dict V → Type 0
  Distinct [] = Unit
  Distinct ((k, v) ∷ m) = (lookup k m ≡ none) × Distinct m

  -- The entries that are copied win.
  pub lookup-copy_into :
      (k : Bytes) (dst src : Dict V)
      → Distinct src
      → lookup k (copy_into dst src) ≡ first_some (lookup k src) (lookup k dst)
  unfolding copy_into lookup
  lookup-copy_into k dst [] d = refl
  lookup-copy_into k dst ((j, v) ∷ src) (fresh, d) = elim (Bool-cases (str_eq j k)) [
    | inl same ↦
        let j_is_k : j ≡ k = (str_eq_iff j k).0 same in
        let gone : lookup k src ≡ none = rw (← j_is_k) fresh in
        lookup-copy_into k (insert j v dst) src d ∙ rw (gone, lookup-insert j k v dst, same)
    | inr other ↦ lookup-copy_into k (insert j v dst) src d ∙ rw (lookup-insert j k v dst, other)
  ]

  pub Distinct-insert : (k : Bytes) (v : V) (m : Dict V) → Distinct m → Distinct (insert k v m)
  unfolding insert lookup
  Distinct-insert k v [] d = (refl, tt)
  Distinct-insert k v ((j, w) ∷ m) (fresh, d) = elim (Bool-cases (str_eq j k)) [
    | inl same ↦ rw same (rw (← (str_eq_iff j k).0 same) fresh, d)
    | inr other ↦ rw other (
      lookup-insert k j v m ∙ ground (arith, str_eq_iff j k, str_eq_iff k j),
      Distinct-insert k v m d,
    )
  ]

  pub Distinct-copy_into : (dst src : Dict V) → Distinct dst → Distinct (copy_into dst src)
  unfolding copy_into
  Distinct-copy_into dst [] d = d
  Distinct-copy_into dst ((k, v) ∷ src) d =
      Distinct-copy_into (insert k v dst) src (Distinct-insert k v dst d)
