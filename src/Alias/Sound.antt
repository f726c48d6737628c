-- ===== src/Alias/Sound.antt =====
-- What validateConfigFile of cmd/config-validate.go accepts and reports.
use mc.Base.{
  ℕ, Bool, true, false, List, [], ◌∷◌, ◌++◌, ◌≡◌, refl, ◌≢◌, ◌↔◌, ◌⊎◌, inl, inr, arith,
  if◌then◌else◌, append_assoc, append-nil, Bool-cases, ap, sym, ◌∙◌,
}
use mc.Base.Strings.{Bytes, codes, str_eq, to_lower, to_lower_byte}
use mc.Base.Strings.Laws.{str_eq_iff}
use mc.Base.Dict.{Dict}
use mc.Config.Formats.{AliasConfigV10, ConfigV10, global_mc_config_version}
use mc.Duration.Units.{is_blank}
use mc.Url.{new_client_url}
use mc.Alias.Validate.{
  ConfigError, bad_version, invalid_api_signature, invalid_url, is_valid_api, is_valid_host_url,
  validate_config_host, validate_config_version, validate_aliases, validate_config_file,
}

-- The name of a signature, in letters of either case.
abbrev pub IsApi : Bytes → Type 0
IsApi api = (to_lower api ≡ codes "s3v2") ⊎ (to_lower api ≡ codes "s3v4")

-- A URL of a host alone.
abbrev pub IsHostUrl : Bytes → Type 0
IsHostUrl url =
    (is_blank url ≡ false)
    × (((new_client_url url).scheme ≡ codes "https") ⊎ ((new_client_url url).scheme ≡ codes "http"))
    × ((new_client_url url).path ≡ codes "/")

to_lower_byte_idem : (c : ℕ) → to_lower_byte (to_lower_byte c) ≡ to_lower_byte c
unfolding to_lower_byte
to_lower_byte_idem c = ground arith

to_lower_idem : (s : Bytes) → to_lower (to_lower s) ≡ to_lower s
unfolding to_lower
to_lower_idem [] = refl
to_lower_idem (c ∷ s) = ground (arith, to_lower_byte_idem c, to_lower_idem s)

is_valid_api_iff : (api : Bytes) → (is_valid_api (to_lower api) ≡ true) ↔ IsApi api
unfolding is_valid_api
is_valid_api_iff api = rw (to_lower_idem api) (
    ground
      (arith, str_eq_iff (codes "s3v2") (to_lower api), str_eq_iff (codes "s3v4") (to_lower api)))

is_valid_host_url_iff : (url : Bytes) → (is_valid_host_url url ≡ true) ↔ IsHostUrl url
unfolding is_valid_host_url
is_valid_host_url_iff url = ground (
  arith,
  str_eq_iff (new_client_url url).scheme (codes "https"),
  str_eq_iff (new_client_url url).scheme (codes "http"),
  str_eq_iff (new_client_url url).path (codes "/"),
)

-- The errors of an alias: one for its signature and one for its URL.
pub data HostErrors (h : AliasConfigV10) : List ConfigError → Type 0 where
  host_sound : IsApi h.api → IsHostUrl h.url → HostErrors h []
  host_api : ¬ IsApi h.api → IsHostUrl h.url → HostErrors h (invalid_api_signature h.api h.url ∷ [])
  host_url : IsApi h.api → ¬ IsHostUrl h.url → HostErrors h (invalid_url h.url ∷ [])
  host_both :
      ¬ IsApi h.api
      → ¬ IsHostUrl h.url
      → HostErrors h (invalid_api_signature h.api h.url ∷ invalid_url h.url ∷ [])

-- The errors of a configuration: that of its version, and those of its aliases, in order.
pub data AliasErrors : Dict AliasConfigV10 → List ConfigError → Type 0 where
  no_aliases : AliasErrors [] []
  more_aliases :
      {alias : Bytes} {h : AliasConfigV10} {m : Dict AliasConfigV10} {es fs : List ConfigError}
      → HostErrors h es
      → AliasErrors m fs
      → AliasErrors ((alias, h) ∷ m) (es ++ fs)

pub data FileErrors (c : ConfigV10) : List ConfigError → Type 0 where
  version_known :
      {es : List ConfigError}
      → c.version ≡ global_mc_config_version
      → AliasErrors c.aliases es
      → FileErrors c es
  version_bad :
      {es : List ConfigError}
      → c.version ≢ global_mc_config_version
      → AliasErrors c.aliases es
      → FileErrors c (bad_version c.version ∷ es)

refuted : {P : Type 0} (b : Bool) → (b ≡ true) ↔ P → b ≡ false → ¬ P
refuted b i e p = let f = i.1 p in cc

host_errors-HostErrors : (h : AliasConfigV10) → HostErrors h (validate_config_host h).1
unfolding validate_config_host
host_errors-HostErrors h =
    split (Bool-cases (is_valid_api (to_lower h.api))) (Bool-cases (is_valid_host_url h.url))
  where
    split :
        (is_valid_api (to_lower h.api) ≡ true) ⊎ (is_valid_api (to_lower h.api) ≡ false)
        → (is_valid_host_url h.url ≡ true) ⊎ (is_valid_host_url h.url ≡ false)
        → HostErrors h (
            (if is_valid_api (to_lower h.api) then [] else invalid_api_signature h.api h.url ∷ [])
            ++ (if is_valid_host_url h.url then [] else invalid_url h.url ∷ []))
    split (inl a) (inl u) =
        rw (a, u) (host_sound ((is_valid_api_iff h.api).0 a) ((is_valid_host_url_iff h.url).0 u))
    split (inl a) (inr u) =
        rw (a, u)
          (host_url ((is_valid_api_iff h.api).0 a)
            (refuted (is_valid_host_url h.url) (is_valid_host_url_iff h.url) u))
    split (inr a) (inl u) =
        rw (a, u)
          (host_api (refuted (is_valid_api (to_lower h.api)) (is_valid_api_iff h.api) a)
            ((is_valid_host_url_iff h.url).0 u))
    split (inr a) (inr u) =
        rw (a, u)
          (host_both (refuted (is_valid_api (to_lower h.api)) (is_valid_api_iff h.api) a)
            (refuted (is_valid_host_url h.url) (is_valid_host_url_iff h.url) u))

-- A validation that has found errors is not successful, and one that has found none is.
abbrev pub IsReport : Bool × List ConfigError → Type 0
IsReport (successful, []) = successful ≡ true
IsReport (successful, e ∷ es) = successful ≡ false

host_errors-IsReport : (h : AliasConfigV10) → IsReport (validate_config_host h)
unfolding validate_config_host
host_errors-IsReport h = ground arith

abbrev merged : Bool → Bool → List ConfigError → List ConfigError → Bool × List ConfigError
merged b healthy es fs = if healthy then (b, es) else (false, es ++ fs)

appended-IsReport :
    (b c : Bool) (es fs : List ConfigError)
    → IsReport (b, es)
    → IsReport (c, fs)
    → IsReport (merged b c es fs)
appended-IsReport b true es fs h k = h
appended-IsReport b false es [] h k = cc
appended-IsReport b false [] (f ∷ fs) h k = refl
appended-IsReport b false (e ∷ es) (f ∷ fs) h k = refl

appended_errors :
    (b c : Bool) (es fs : List ConfigError) → IsReport (c, fs) → (merged b c es fs).1 ≡ es ++ fs
appended_errors b true es [] k = sym (append-nil es)
appended_errors b true es (f ∷ fs) k = cc
appended_errors b false es fs k = refl

abbrev next : Bool × List ConfigError → AliasConfigV10 → Bool × List ConfigError
next (b, es) h = merged b (validate_config_host h).0 es (validate_config_host h).1

aliases-IsReport :
    (found : Bool × List ConfigError) (m : Dict AliasConfigV10)
    → IsReport found
    → IsReport (validate_aliases found m)
unfolding validate_aliases
aliases-IsReport found [] r = r
aliases-IsReport found ((alias, h) ∷ m) r = aliases-IsReport (next found h) m (
    appended-IsReport found.0 (validate_config_host h).0 found.1 (validate_config_host h).1 r
      (host_errors-IsReport h))

aliases-AliasErrors :
    (found : Bool × List ConfigError) (m : Dict AliasConfigV10)
    → (es : List ConfigError) × ((validate_aliases found m).1 ≡ found.1 ++ es) × AliasErrors m es
unfolding validate_aliases
aliases-AliasErrors found [] = ([], sym (append-nil found.1), no_aliases)
aliases-AliasErrors found ((alias, h) ∷ m) =
    let (es, e, a) = aliases-AliasErrors (next found h) m in
    let more = (validate_config_host h).1 in
    (
      more ++ es,
      e
          ∙ ap (λ (fs : List ConfigError). fs ++ es)
              (appended_errors found.0 (validate_config_host h).0 found.1 more
                (host_errors-IsReport h))
          ∙ append_assoc found.1 more es,
      more_aliases (host_errors-HostErrors h) a,
    )

module _ (c : ConfigV10) where
  version_ok :
      c.version ≡ global_mc_config_version
      → FileErrors c (validate_aliases (true, []) c.aliases).1
        × IsReport (validate_aliases (true, []) c.aliases)
  version_ok v =
      let (es, e, a) = aliases-AliasErrors (true, []) c.aliases in
      (rw e (version_known v a), aliases-IsReport (true, []) c.aliases refl)

  version_wrong :
      c.version ≢ global_mc_config_version
      → FileErrors c (validate_aliases (false, bad_version c.version ∷ []) c.aliases).1
        × IsReport (validate_aliases (false, bad_version c.version ∷ []) c.aliases)
  version_wrong v =
      let found : Bool × List ConfigError = (false, bad_version c.version ∷ []) in
      let (es, e, a) = aliases-AliasErrors found c.aliases in
      (rw e (version_bad v a), aliases-IsReport found c.aliases refl)

-- The validation of a configuration reports exactly what is wrong with it: an error for a version
-- that is not the newest, and for each alias, in order, one for a signature that is neither S3v2 nor
-- S3v4 in letters of either case, and one for a URL that is blank or not that of an http or https
-- host alone. It is successful exactly where it reports nothing.
pub validate_config_file-FileErrors :
    (c : ConfigV10) → FileErrors c (validate_config_file c).1 × IsReport (validate_config_file c)
unfolding validate_config_file validate_config_version
validate_config_file-FileErrors c = elim (Bool-cases (str_eq c.version global_mc_config_version)) [
  | inl e ↦ rw e (version_ok c ((str_eq_iff c.version global_mc_config_version).0 e))
  | inr e ↦ rw e (
      version_wrong c (
        refuted (str_eq c.version global_mc_config_version)
          (str_eq_iff c.version global_mc_config_version) e))
]
