-- ===== src/Ilm/Removal.antt =====
-- RemoveILMRule of cmd/ilm/options.go.
use mc.Base.{
  ◌≤◌, true, false, some, List, [], ◌∷◌, ◌≡◌, refl, ◌≢◌, ◌⊎◌, inl, inr, arith, All, Any, ◌==◌,
  length, Bool-cases,
}
use mc.Base.Strings.{Bytes, str_eq}
use mc.Base.Strings.Laws.{str_eq_iff}
use mc.Ilm.Rule.{Rule, not_found}
use mc.Ilm.Parse.{Result, ok, err}
use mc.Ilm.Edit.{keep_others, remove_ilm_rule}

-- A list of rules in which the identifier is held by some rule.
abbrev pub HasId : Bytes → List Rule → Type 0
HasId id = Any (λ r. r.id ≡ id)

keep_others-le : (id : Bytes) (rs : List Rule) → length (keep_others id rs) ≤ length rs
unfolding keep_others
keep_others-le id [] = omega arith
keep_others-le id (r ∷ rs) = ground (arith, keep_others-le id rs)

keep_others-lt :
    (id : Bytes) (rs : List Rule) → HasId id rs → (length (keep_others id rs) == length rs) ≡ false
unfolding keep_others
keep_others-lt id [] h = absurd h
keep_others-lt id (r ∷ rs) (inl e) = ground (arith, keep_others-le id rs, str_eq_iff r.id id)
keep_others-lt id (r ∷ rs) (inr m) = ground (arith, keep_others-lt id rs m, keep_others-le id rs)

keep_others-same : (id : Bytes) (rs : List Rule) → ¬ HasId id rs → keep_others id rs ≡ rs
unfolding keep_others
keep_others-same id [] h = refl
keep_others-same id (r ∷ rs) h = ground (
  arith,
  keep_others-same id rs (λ m. h (inr m)),
  str_eq_iff r.id id,
  λ (e : r.id ≡ id). h (inl e),
)

keep_others-Lacks : (id : Bytes) (rs : List Rule) → All (λ r. r.id ≢ id) (keep_others id rs)
unfolding keep_others
keep_others-Lacks id [] = tt
keep_others-Lacks id (r ∷ rs) = ground (arith, keep_others-Lacks id rs, str_eq_iff r.id id)

-- The rules that are left when those of an identifier, and no others, are taken out.
pub data Removes (id : Bytes) : List Rule → List Rule → Type 0 where
  removes_nil : Removes id [] []
  removes_drop :
      {r : Rule} {rs kept : List Rule} → r.id ≡ id → Removes id rs kept → Removes id (r ∷ rs) kept
  removes_keep :
      {r : Rule} {rs kept : List Rule}
      → r.id ≢ id
      → Removes id rs kept
      → Removes id (r ∷ rs) (r ∷ kept)

keep_others-Removes : (id : Bytes) (rs : List Rule) → Removes id rs (keep_others id rs)
unfolding keep_others
keep_others-Removes id [] = removes_nil
keep_others-Removes id (r ∷ rs) = elim (Bool-cases (str_eq r.id id)) [
  | inl e ↦ rw e (removes_drop ((str_eq_iff r.id id).0 e) (keep_others-Removes id rs))
  | inr e ↦
      rw e (removes_keep (λ h. ground (arith, str_eq_iff r.id id)) (keep_others-Removes id rs))
]

HasId-cases : (id : Bytes) (rs : List Rule) → HasId id rs ⊎ ¬ HasId id rs
HasId-cases id [] = inr (λ h. h)
HasId-cases id (r ∷ rs) = elim (Bool-cases (str_eq r.id id)) [
  | inl e ↦ inl (inl ((str_eq_iff r.id id).0 e))
  | inr e ↦ elim (HasId-cases id rs) [
    | inl m ↦ inl (inr m)
    | inr n ↦ inr (λ h. elim h [ inl p ↦ ground (arith, str_eq_iff r.id id) | inr m ↦ n m ])
  ]
]

length-eq : (rs : List Rule) → (length rs == length rs) ≡ true
length-eq rs = ground arith

-- The rule is held by the list, and the result is the list without it; or it is not, and the result
-- is an error.
pub data Removal (id : Bytes) (rs : List Rule) : Result (List Rule) → Type 0 where
  removed : {kept : List Rule} → HasId id rs → Removes id rs kept → Removal id rs (ok kept)
  absent : ¬ HasId id rs → Removal id rs (err not_found)

-- Removing a rule from a configuration that has rules takes out exactly the rules with the given
-- identifier and keeps the others in order; where no rule has it, the result is the error that the
-- rule was not found, and never a configuration.
pub remove_ilm_rule-Removal :
    (id : Bytes) (r : Rule) (rs : List Rule)
    → Removal id (r ∷ rs) (remove_ilm_rule (some (r ∷ rs)) id)
unfolding remove_ilm_rule
remove_ilm_rule-Removal id r rs = elim (HasId-cases id (r ∷ rs)) [
  | inl h ↦ rw (keep_others-lt id (r ∷ rs) h) (removed h (keep_others-Removes id (r ∷ rs)))
  | inr n ↦ rw (keep_others-same id (r ∷ rs) n, length-eq (r ∷ rs)) (absent n)
]
