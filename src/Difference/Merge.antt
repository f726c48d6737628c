-- ===== src/Difference/Merge.antt =====
-- The comparison of two listings in the order of their names against what it should find.
use mc.Base.{
  Bool, true, false, Option, none, some, List, [], ◌∷◌, ◌++◌, ◌≡◌, refl, ◌≢◌, arith, All,
  if◌then◌else◌,
}
use mc.Base.Strings.{Bytes, str_lt, str_eq}
use mc.Base.Strings.Laws.{str_lt_irrefl, str_eq_iff, str_lt_trans}
use mc.Base.Utf8.{valid_string}
use mc.Content.{ClientContent, regular}
use mc.Difference.Compare.{
  Setting, DiffMessage, source_key, target_key, differ_messages, similar_messages, difference_of,
}
use mc.Errors.{in_size, in_metadata, in_aa_source_mtime, in_first, in_second}

-- The sources that are reported as missing in the target, in order.
abbrev pub reported_first : List DiffMessage → List ClientContent
reported_first [] = []
reported_first (m ∷ ms) = elim m.diff [
  | in_first ↦ elim m.first_content [ none ↦ reported_first ms | some s ↦ s ∷ reported_first ms ]
  | _ ↦ reported_first ms
]

-- The targets that are reported as missing in the source, in order.
abbrev pub reported_second : List DiffMessage → List ClientContent
reported_second [] = []
reported_second (m ∷ ms) = elim m.diff [
  | in_second ↦ elim m.second_content [
    | none ↦ reported_second ms
    | some t ↦ t ∷ reported_second ms
  ]
  | _ ↦ reported_second ms
]

-- The messages about names that both listings have.
abbrev pub reported_both : List DiffMessage → List DiffMessage
reported_both [] = []
reported_both (m ∷ ms) = elim m.diff [
  | in_first ↦ reported_both ms
  | in_second ↦ reported_both ms
  | _ ↦ m ∷ reported_both ms
]

module _ (key : ClientContent → Bytes) where
  -- A listing has an entry of this name.
  abbrev pub holds : Bytes → List ClientContent → Bool
  holds k [] = false
  holds k (c ∷ cs) = if str_eq (key c) k then true else holds k cs

  -- The names rise, as in the listing of a bucket.
  abbrev pub Above : Bytes → List ClientContent → Type 0
  Above k = All (λ c. str_lt k (key c) ≡ true)

  abbrev pub Rising : List ClientContent → Type 0
  Rising [] = Unit
  Rising (c ∷ cs) = Above (key c) cs × Rising cs

  pub Above-trans :
      (j k : Bytes) (cs : List ClientContent) → str_lt j k ≡ true → Above k cs → Above j cs
  Above-trans j k [] h a = tt
  Above-trans j k (c ∷ cs) h a = (str_lt_trans j k (key c) h a.0, Above-trans j k cs h a.1)

  pub Above-holds : (k : Bytes) (cs : List ClientContent) → Above k cs → holds k cs ≡ false
  Above-holds k [] a = refl
  Above-holds k (c ∷ cs) a =
      ground (arith, Above-holds k cs a.1, str_eq_iff (key c) k, str_lt_irrefl k)

-- The entries of a listing whose name the other listing lacks.
abbrev pub missing_from :
    (own other : ClientContent → Bytes)
    → List ClientContent
    → List ClientContent
    → List ClientContent
missing_from own other [] ts = []
missing_from own other (s ∷ ss) ts =
    if holds other (own s) ts
    then missing_from own other ss ts
    else s ∷ missing_from own other ss ts

pub missing_from-Above :
    (own other : ClientContent → Bytes) (ss : List ClientContent) (t : ClientContent)
    (ts : List ClientContent)
    → Above own (other t) ss
    → missing_from own other ss (t ∷ ts) ≡ missing_from own other ss ts
missing_from-Above own other [] t ts a = refl
missing_from-Above own other (s ∷ ss) t ts a = ground (
  arith,
  missing_from-Above own other ss t ts a.1,
  str_eq_iff (other t) (own s),
  str_lt_irrefl (own s),
)

-- A sound file with a valid name.
abbrev pub IsSound : (ClientContent → Bytes) → ClientContent → Type 0
IsSound suffix c = (c.err ≡ none) × (c.mode ≡ regular) × (valid_string (suffix c) ≡ true)

-- The first entry of this name.
abbrev pub find : (ClientContent → Bytes) → Bytes → List ClientContent → Option ClientContent
find key k [] = none
find key k (c ∷ cs) = if str_eq (key c) k then some c else find key k cs

pub find-Above :
    (key : ClientContent → Bytes) (k : Bytes) (cs : List ClientContent)
    → Above key k cs
    → find key k cs ≡ none
find-Above key k [] a = refl
find-Above key k (c ∷ cs) a =
    ground (arith, find-Above key k cs a.1, str_eq_iff (key c) k, str_lt_irrefl k)

module _ (o : Setting) where
  -- What is said of the names that both listings have, in order.
  abbrev pub shared : List ClientContent → List ClientContent → List DiffMessage
  shared [] ts = []
  shared (s ∷ ss) ts = elim (find (target_key o) (source_key o s) ts) [
    | none ↦ shared ss ts
    | some t ↦ (differ_messages o s t ++ similar_messages o s t) ++ shared ss ts
  ]

  pub shared-Above :
      (ss : List ClientContent) (t : ClientContent) (ts : List ClientContent)
      → Above (source_key o) (target_key o t) ss
      → shared ss (t ∷ ts) ≡ shared ss ts
  shared-Above [] t ts a = refl
  shared-Above (s ∷ ss) t ts a = ground (
    arith,
    shared-Above ss t ts a.1,
    str_eq_iff (target_key o t) (source_key o s),
    str_lt_irrefl (source_key o s),
  )

-- A message about a name that both listings have.
abbrev pub IsShared : DiffMessage → Type 0
IsShared m = (m.diff ≢ in_first) × (m.diff ≢ in_second)

pub reported_first-append :
    (ms rest : List DiffMessage)
    → All IsShared ms
    → reported_first (ms ++ rest) ≡ reported_first rest
reported_first-append [] rest h = refl
reported_first-append (m ∷ ms) rest h = ground (arith, reported_first-append ms rest h.1)

pub reported_second-append :
    (ms rest : List DiffMessage)
    → All IsShared ms
    → reported_second (ms ++ rest) ≡ reported_second rest
reported_second-append [] rest h = refl
reported_second-append (m ∷ ms) rest h = ground (arith, reported_second-append ms rest h.1)

pub reported_both-append :
    (ms rest : List DiffMessage)
    → All IsShared ms
    → reported_both (ms ++ rest) ≡ ms ++ reported_both rest
reported_both-append [] rest h = refl
reported_both-append (m ∷ ms) rest h = ground (arith, reported_both-append ms rest h.1)

pub pair_messages-IsShared :
    (o : Setting) (s t : ClientContent)
    → All IsShared (differ_messages o s t ++ similar_messages o s t)
unfolding differ_messages similar_messages difference_of
pair_messages-IsShared o s t = ground arith

-- The sources of the messages that ask for a copy, in order.
abbrev pub changed_sources : List DiffMessage → List ClientContent
changed_sources [] = []
changed_sources (m ∷ ms) = elim m.diff [
  | in_first ↦ elim m.first_content [ none ↦ changed_sources ms | some s ↦ s ∷ changed_sources ms ]
  | in_size ↦ elim m.first_content [ none ↦ changed_sources ms | some s ↦ s ∷ changed_sources ms ]
  | in_metadata ↦ elim m.first_content [
    | none ↦ changed_sources ms
    | some s ↦ s ∷ changed_sources ms
  ]
  | in_aa_source_mtime ↦ elim m.first_content [
    | none ↦ changed_sources ms
    | some s ↦ s ∷ changed_sources ms
  ]
  | _ ↦ changed_sources ms
]

module _ (o : Setting) where
  -- Whether the target has an entry of this name that does not differ.
  unfoldable pub up_to_date : ClientContent → List ClientContent → Bool
  up_to_date s ts = elim (find (target_key o) (source_key o s) ts) [
    | none ↦ false
    | some t ↦ elim (difference_of o s t) [ none ↦ true | some d ↦ false ]
  ]

  -- The sources that are not up to date in the target.
  abbrev pub outdated : List ClientContent → List ClientContent → List ClientContent
  outdated [] ts = []
  outdated (s ∷ ss) ts = if up_to_date s ts then outdated ss ts else s ∷ outdated ss ts

  pub outdated-Above :
      (ss : List ClientContent) (t : ClientContent) (ts : List ClientContent)
      → Above (source_key o) (target_key o t) ss
      → outdated ss (t ∷ ts) ≡ outdated ss ts
  unfolding up_to_date
  outdated-Above [] t ts a = refl
  outdated-Above (s ∷ ss) t ts a = ground (
    arith,
    outdated-Above ss t ts a.1,
    str_eq_iff (target_key o t) (source_key o s),
    str_lt_irrefl (source_key o s),
  )

  pub outdated_missing :
      (s : ClientContent) (ss ts : List ClientContent)
      → Above (target_key o) (source_key o s) ts
      → outdated (s ∷ ss) ts ≡ s ∷ outdated ss ts
  unfolding up_to_date
  outdated_missing s ss ts a = ground (arith, find-Above (target_key o) (source_key o s) ts a)

  -- The messages about one name ask for a copy of its source, unless the target is up to date.
  pub changed_sources_pair :
      (s : ClientContent) (ss : List ClientContent) (t : ClientContent) (ts : List ClientContent)
      (rest : List DiffMessage)
      → str_eq (target_key o t) (source_key o s) ≡ true
      → changed_sources rest ≡ outdated ss (t ∷ ts)
      → changed_sources ((differ_messages o s t ++ similar_messages o s t) ++ rest)
        ≡ outdated (s ∷ ss) (t ∷ ts)
  unfolding up_to_date differ_messages similar_messages difference_of
  changed_sources_pair s ss t ts rest same h = ground arith
