-- ===== src/Ilm/Tags.antt =====
-- Tags as text: extractILMTags of cmd/ilm/parse.go against getTags of cmd/ilm/utils.go.
use mc.Base.{
  false, some, List, [], ◌∷◌, ◌++◌, ◌≡◌, refl, ap, ◌∙◌, ◌≢◌, arith, All, Bool-cases, inl, inr,
  if◌then◌else◌,
}
use mc.Base.Strings.{Bytes, str_eq, split, split_n2}
use mc.Ilm.Rule.{Tag, Rule, Lifecycle}
use mc.Ilm.Parse.{extract_parts, extract_ilm_tags}
use mc.Ilm.Table.{tag_text, tags_text, get_tags}

-- A key holds neither separator, and a value does not hold that of the tags.
pub record IsTag (t : Tag) : Type 0 where
  pub key_bytes : All (λ c. (c ≢ b'&') × (c ≢ b'=')) t.key
  pub value_bytes : All (λ c. c ≢ b'&') t.value

split-absent : (s : Bytes) → All (λ c. c ≢ b'&') s → split s b'&' ≡ s ∷ []
unfolding split
split-absent [] h = refl
split-absent (c ∷ s) h = ground (arith, split-absent s h.1)

split-append :
    (s rest : Bytes) → All (λ c. c ≢ b'&') s → split (s ++ b'&' ∷ rest) b'&' ≡ s ∷ split rest b'&'
unfolding split
split-append [] rest h = refl
split-append (c ∷ s) rest h = ground (arith, split-append s rest h.1)

split_n2-append :
    (key value : Bytes)
    → All (λ c. (c ≢ b'&') × (c ≢ b'=')) key
    → split_n2 (key ++ b'=' ∷ value) b'=' ≡ (key, some value)
unfolding split_n2
split_n2-append [] value h = refl
split_n2-append (c ∷ key) value h = ground (arith, split_n2-append key value h.1)

plain-append :
    (key value : Bytes)
    → All (λ c. (c ≢ b'&') × (c ≢ b'=')) key
    → All (λ c. c ≢ b'&') value
    → All (λ c. c ≢ b'&') (key ++ (b'=' ∷ value))
plain-append [] value h k = (ground arith, k)
plain-append (c ∷ key) value h k = (h.0.0, plain-append key value h.1 k)

some_text : (key value : Bytes) → str_eq (key ++ (b'=' ∷ value)) [] ≡ false
some_text [] value = refl
some_text (c ∷ key) value = refl

extract_parts-tag_text :
    (t : Tag) (parts : List Bytes)
    → IsTag t
    → extract_parts (tag_text t ∷ parts) ≡ t ∷ extract_parts parts
unfolding extract_parts
extract_parts-tag_text t parts h =
    rw (some_text t.key t.value, split_n2-append t.key t.value h.key_bytes) refl

no_text : extract_ilm_tags [] ≡ []
unfolding extract_ilm_tags extract_parts split
no_text = refl

extract-tags_text : (ts : List Tag) → All IsTag ts → extract_ilm_tags (tags_text ts) ≡ ts
unfolding extract_ilm_tags tags_text extract_parts
extract-tags_text [] h = no_text
extract-tags_text (t ∷ []) h =
    ap extract_parts
      (split-absent (tag_text t) (plain-append t.key t.value h.0.key_bytes h.0.value_bytes))
    ∙ extract_parts-tag_text t [] h.0
extract-tags_text (t ∷ u ∷ ts) h =
    ap extract_parts (
      split-append (tag_text t) (tags_text (u ∷ ts))
        (plain-append t.key t.value h.0.key_bytes h.0.value_bytes))
    ∙ extract_parts-tag_text t (split (tags_text (u ∷ ts)) b'&') h.0
    ∙ ap (λ (us : List Tag). t ∷ us) (extract-tags_text (u ∷ ts) h.1)

-- The tags that a listing shows are read back as the tags of the rule: as its one tag or else as
-- those of its conjunction, in order, if no key holds `&` or `=` and no value holds `&`.
pub extract_ilm_tags-get_tags :
    (l : Lifecycle) (r : Rule)
    → IsTag r.filter.tag
    → All IsTag r.filter.conjunction.tags
    → extract_ilm_tags (get_tags l r)
      ≡ (if l.tag_is_empty r.filter.tag then r.filter.conjunction.tags else r.filter.tag ∷ [])
unfolding get_tags tags_text
extract_ilm_tags-get_tags l r h k = elim (Bool-cases (l.tag_is_empty r.filter.tag)) [
  | inl e ↦ rw e (extract-tags_text r.filter.conjunction.tags k)
  | inr e ↦ rw e (extract-tags_text (r.filter.tag ∷ []) (h, tt))
]
