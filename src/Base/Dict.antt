-- ===== src/Base/Dict.antt =====
-- Go's maps with string keys, as association lists in the order in which a loop meets the entries.
pub mod Laws
use mathlib.Core.Path.{◌≡◌}
use mathlib.Core.Option.{Option, none, some}
use mathlib.Core.List.{List, [], ◌∷◌}
use mc.Base.Tests.{if◌then◌else◌}
use mc.Base.Strings.{Bytes, str_eq}

abbrev pub Dict {ℓ} : Type ℓ → Type ℓ
Dict V = List (Bytes × V)

module _ {ℓ} {V : Type ℓ} where
  -- v, ok := m[k]
  unfoldable pub lookup : Bytes → Dict V → Option V
  lookup k [] = none
  lookup k ((j, v) ∷ m) = if str_eq j k then some v else lookup k m

  -- m[k] = v
  unfoldable pub insert : Bytes → V → Dict V → Dict V
  insert k v [] = (k, v) ∷ []
  insert k v ((j, w) ∷ m) = if str_eq j k then (j, v) ∷ m else (j, w) ∷ insert k v m

  -- maps.Copy(m, n)
  unfoldable pub copy : Dict V → Dict V → Dict V
  copy m [] = m
  copy m ((k, v) ∷ n) = copy (insert k v m) n

  -- if _, ok := m[k]; !ok { m[k] = v }
  unfoldable pub insert_missing : Bytes → V → Dict V → Dict V
  insert_missing k v m = elim (lookup k m) [ none ↦ insert k v m | some w ↦ m ]

  -- Every key stands in the list once.
  abbrev pub IsDict : Dict V → Type ℓ
  IsDict [] = Unit
  IsDict ((k, v) ∷ m) = (lookup k m ≡ none) × IsDict m

-- for k, v := range m { n[k] = f(v) }
unfoldable pub copy_map {ℓ κ} : {V : Type ℓ} {W : Type κ} → (V → W) → Dict W → Dict V → Dict W
copy_map f n [] = n
copy_map f n ((k, v) ∷ m) = copy_map f (insert k (f v) n) m
