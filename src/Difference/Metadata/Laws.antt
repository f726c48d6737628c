-- ===== src/Difference/Metadata/Laws.antt =====
-- What metadataEqual decides.
use mc.Base.{true, false, [], ◌∷◌, ◌≡◌, refl, ◌↔◌, inl, inr, arith, Bool-cases, sym, ◌∙◌}
use mc.Base.Strings.{Bytes, str_eq}
use mc.Base.Strings.Laws.{str_eq_iff, str_eq_refl}
use mc.Content.{Headers, get, has_key}
use mc.Difference.Metadata.{is_ignored, agrees, metadata_equal}

-- Every key is held once, as in a map.
abbrev pub IsMap : Headers → Type 0
IsMap [] = Unit
IsMap ((k, v) ∷ m) = (has_key m k ≡ false) × IsMap m

-- Two maps agree on the keys that count; a missing key reads as the empty string.
abbrev pub SameHeaders : Headers → Headers → Type 0
SameHeaders m1 m2 = (k : Bytes) → is_ignored k ≡ false → get m1 k ≡ get m2 k

agrees_sound :
    (m1 m2 : Headers) (k : Bytes)
    → agrees m1 m2 ≡ true
    → is_ignored k ≡ false
    → has_key m1 k ≡ true
    → get m1 k ≡ get m2 k
unfolding agrees
agrees_sound [] m2 k h i p = cc
agrees_sound ((j, v) ∷ m1) m2 k h i p =
    ground (arith, agrees_sound m1 m2 k, str_eq_iff j k, str_eq_iff (get m2 j) v)

get_absent : (m : Headers) (k : Bytes) → has_key m k ≡ false → get m k ≡ []
get_absent [] k h = refl
get_absent ((j, v) ∷ m) k h = ground (arith, get_absent m k)

metadata_equal_sound : (m1 m2 : Headers) → metadata_equal m1 m2 ≡ true → SameHeaders m1 m2
metadata_equal_sound m1 m2 h k i =
    unfold metadata_equal in
    ground (arith, agrees_sound m1 m2 k, agrees_sound m2 m1 k, get_absent m1 k, get_absent m2 k)

-- A key behind the first entry is another key than that of the first entry.
get_tail :
    (j v : Bytes) (m : Headers) (k : Bytes)
    → has_key m j ≡ false
    → has_key m k ≡ true
    → (has_key ((j, v) ∷ m) k ≡ true) × (get ((j, v) ∷ m) k ≡ get m k)
get_tail j v m k fresh p = elim (Bool-cases (str_eq j k)) [
  | inl e ↦ absurd (cc ((str_eq_iff j k).0 e))
  | inr e ↦ rw e (p, refl)
]

agrees_complete :
    (m1 m2 : Headers)
    → IsMap m1
    → ((k : Bytes) → is_ignored k ≡ false → has_key m1 k ≡ true → get m1 k ≡ get m2 k)
    → agrees m1 m2 ≡ true
unfolding agrees
agrees_complete [] m2 u h = refl
agrees_complete ((j, v) ∷ m1) m2 (fresh, u) h =
    let rest : agrees m1 m2 ≡ true =
      agrees_complete m1 m2 u
        λ k i p. let (there, same) = get_tail j v m1 k fresh p in sym same ∙ h k i there in
    ground (arith, rest, h j, str_eq_refl j, str_eq_iff (get m2 j) v)

-- metadataEqual accepts two maps exactly when they agree on every key but the two spellings of the
-- active-active modification time, where a missing key and an empty value are the same.
pub metadata_equal_iff :
    (m1 m2 : Headers) → IsMap m1 → IsMap m2 → (metadata_equal m1 m2 ≡ true) ↔ SameHeaders m1 m2
metadata_equal_iff m1 m2 u1 u2 = (metadata_equal_sound m1 m2, complete)
  where
    complete : SameHeaders m1 m2 → metadata_equal m1 m2 ≡ true
    complete h =
        unfold metadata_equal in
        rw (agrees_complete m1 m2 u1 (λ k i _. h k i))
          (agrees_complete m2 m1 u2 (λ k i _. sym (h k i)))
