-- ===== src/Difference/Metadata.antt =====
-- metadataEqual of cmd/difference.go.
pub mod Laws
use mc.Base.{Bool, true, false, List, [], ◌∷◌, ◌||◌, if◌then◌else◌}
use mc.Base.Strings.{Bytes, codes, str_eq, to_lower}
use mc.Content.{Headers, get}

abbrev pub active_active_key : Bytes
active_active_key = codes "X-Amz-Meta-Mm-Source-Mtime"

-- The keys that both loops pass over.
pub is_ignored : Bytes → Bool
unfolding to_lower
is_ignored k = str_eq k active_active_key || str_eq k (to_lower active_active_key)

-- One of the two loops: every entry of the first map has its value in the second.
agrees : Headers → Headers → Bool
agrees [] m2 = true
agrees ((k, v) ∷ m1) m2 =
    let rest = agrees m1 m2 in
    if is_ignored k then rest else if str_eq (get m2 k) v then rest else false

unfoldable pub metadata_equal : Headers → Headers → Bool
unfolding agrees is_ignored
metadata_equal m1 m2 = if agrees m1 m2 then agrees m2 m1 else false
