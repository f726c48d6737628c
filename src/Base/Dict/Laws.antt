-- ===== src/Base/Dict/Laws.antt =====
-- The laws of maps.
use mathlib.Core.Path.{◌≡◌, refl, ◌∙◌}
use mathlib.Core.Option.{none, some}
use mathlib.Core.List.{[], ◌∷◌}
use native.Mathlib.Omega.{arith}
use mc.Base.Tests.{if◌then◌else◌}
use mc.Base.Strings.{Bytes, str_eq}
use mc.Base.Strings.Laws.{str_eq_iff}
use mc.Base.Dict.{Dict, lookup, insert, copy, copy_map, IsDict}

module _ {ℓ} {V : Type ℓ} where
  pub lookup-insert :
      (j k : Bytes) (v : V) (m : Dict V)
      → lookup j (insert k v m) ≡ (if str_eq k j then some v else lookup j m)
  unfolding lookup insert
  lookup-insert j k v [] = refl
  lookup-insert j k v ((i, w) ∷ m) =
      ground (arith, str_eq_iff i k, str_eq_iff i j, str_eq_iff k j, lookup-insert j k v m)

pub lookup-copy_map {ℓ κ} :
    {V : Type ℓ} {W : Type κ} (f : V → W) (n : Dict W) (m : Dict V) (k : Bytes)
    → IsDict m
    → lookup k (copy_map f n m) ≡ elim (lookup k m) [ none ↦ lookup k n | some v ↦ some (f v) ]
unfolding copy_map lookup
lookup-copy_map f n [] k u = refl
lookup-copy_map f n ((j, v) ∷ m) k (fresh, u) =
    lookup-copy_map f (insert j (f v) n) m k u
    ∙ ground (arith, lookup-insert k j (f v) n, str_eq_iff j k)

pub lookup-copy {ℓ} :
    {V : Type ℓ} (n m : Dict V) (k : Bytes)
    → IsDict m
    → lookup k (copy n m) ≡ elim (lookup k m) [ none ↦ lookup k n | some v ↦ some v ]
unfolding copy lookup
lookup-copy n [] k u = refl
lookup-copy n ((j, v) ∷ m) k (fresh, u) =
    lookup-copy (insert j v n) m k u ∙ ground (arith, lookup-insert k j v n, str_eq_iff j k)

pub insert-IsDict {ℓ} :
    {V : Type ℓ} (k : Bytes) (v : V) (m : Dict V) → IsDict m → IsDict (insert k v m)
unfolding insert lookup
insert-IsDict k v [] u = (refl, tt)
insert-IsDict k v ((j, w) ∷ m) (fresh, u) =
    ground (arith, insert-IsDict k v m u, lookup-insert j k v m, str_eq_iff j k, str_eq_iff k j)

pub copy_map-IsDict {ℓ κ} :
    {V : Type ℓ} {W : Type κ} (f : V → W) (n : Dict W) (m : Dict V)
    → IsDict n
    → IsDict (copy_map f n m)
unfolding copy_map
copy_map-IsDict f n [] u = u
copy_map-IsDict f n ((k, v) ∷ m) u =
    copy_map-IsDict f (insert k (f v) n) m (insert-IsDict k (f v) n u)

-- A value is found again under its key in the copy.
pub lookup-copy_map-some {ℓ κ} :
    {V : Type ℓ} {W : Type κ} (f : V → W) (m : Dict V) (k : Bytes) {v : V}
    → IsDict m
    → lookup k m ≡ some v
    → lookup k (copy_map f [] m) ≡ some (f v)
lookup-copy_map-some f m k u h = lookup-copy_map f [] m k u ∙ rw h
