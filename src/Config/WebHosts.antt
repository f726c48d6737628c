-- ===== src/Config/WebHosts.antt =====
-- What the loop of fixConfigV6ForHosts of cmd/config-fix.go leaves of the hosts.
use mc.Base.{
  sym, ◌⊎◌, inl, inr, Bool-cases, some, Bool, true, false, not, ◌&&◌, ◌||◌, none, [], ◌∷◌, any, ◌≡◌,
  refl, ◌≢◌, arith, ap,
}
use mc.Base.Strings.{Bytes, str_eq}
use mc.Base.Strings.Laws.{str_eq_iff, str_eq_refl}
use mc.Base.Dict.{Dict, insert, lookup, IsDict}
use mc.Base.Dict.Laws.{lookup-insert}
use mc.Config.Formats.{HostConfigV6}
use mc.Config.Repair.{is_broken_host, is_web_host, https_host, fix_web_hosts}
use mc.Url.{to_string}

abbrev pub broken_in : Bytes × HostConfigV6 → Bool
broken_in (host, h) = not (is_web_host host) && is_broken_host host

https_host_web : (host : Bytes) → is_web_host (https_host host) ≡ true
unfolding https_host to_string is_web_host
https_host_web host = refl

pub fix_web_hosts-mutated :
    (fixed : Dict HostConfigV6) (b : Bool) (hosts : Dict HostConfigV6)
    → (fix_web_hosts fixed b hosts).1 ≡ (b || any broken_in hosts)
unfolding fix_web_hosts
fix_web_hosts-mutated fixed b [] = ground arith
fix_web_hosts-mutated fixed b ((host, h) ∷ hosts) = ground (
  arith,
  fix_web_hosts-mutated (insert host h fixed) b hosts,
  fix_web_hosts-mutated (insert (https_host host) h fixed) true hosts,
  fix_web_hosts-mutated fixed b hosts,
)

module _ (key : Bytes) where
  -- Every key of the new hosts begins with http.
  pub lookup-fix_web_hosts-none :
      (fixed : Dict HostConfigV6) (b : Bool) (hosts : Dict HostConfigV6)
      → is_web_host key ≡ false
      → lookup key fixed ≡ none
      → lookup key (fix_web_hosts fixed b hosts).0 ≡ none
  unfolding fix_web_hosts
  lookup-fix_web_hosts-none fixed b [] k l = l
  lookup-fix_web_hosts-none fixed b ((host, h) ∷ hosts) k l = ground (
    arith,
    lookup-fix_web_hosts-none (insert host h fixed) b hosts,
    lookup-fix_web_hosts-none (insert (https_host host) h fixed) true hosts,
    lookup-fix_web_hosts-none fixed b hosts,
    lookup-insert key host h fixed,
    lookup-insert key (https_host host) h fixed,
    str_eq_iff host key,
    str_eq_iff (https_host host) key,
    https_host_web host,
  )

  lookup-fix_web_hosts-fixed :
      (fixed : Dict HostConfigV6) (b : Bool) (hosts : Dict HostConfigV6)
      → lookup key fixed ≢ none
      → lookup key (fix_web_hosts fixed b hosts).0 ≢ none
  unfolding fix_web_hosts
  lookup-fix_web_hosts-fixed fixed b [] l = l
  lookup-fix_web_hosts-fixed fixed b ((host, h) ∷ hosts) l = ground (
    arith,
    lookup-fix_web_hosts-fixed (insert host h fixed) b hosts,
    lookup-fix_web_hosts-fixed (insert (https_host host) h fixed) true hosts,
    lookup-fix_web_hosts-fixed fixed b hosts,
    lookup-insert key host h fixed,
    lookup-insert key (https_host host) h fixed,
    str_eq_iff host key,
    str_eq_iff (https_host host) key,
    https_host_web host,
  )

  pub lookup-fix_web_hosts-web :
      (fixed : Dict HostConfigV6) (b : Bool) (hosts : Dict HostConfigV6)
      → is_web_host key ≡ true
      → lookup key hosts ≢ none
      → lookup key (fix_web_hosts fixed b hosts).0 ≢ none
  unfolding fix_web_hosts lookup
  lookup-fix_web_hosts-web fixed b [] k l = absurd (l refl)
  lookup-fix_web_hosts-web fixed b ((host, h) ∷ hosts) k l = ground (
    arith,
    lookup-fix_web_hosts-web (insert host h fixed) b hosts,
    lookup-fix_web_hosts-web (insert (https_host host) h fixed) true hosts,
    lookup-fix_web_hosts-web fixed b hosts,
    lookup-insert key host h fixed,
    lookup-insert key (https_host host) h fixed,
    str_eq_iff host key,
    str_eq_iff (https_host host) key,
    https_host_web host,
    lookup-fix_web_hosts-fixed (insert host h fixed) b hosts,
    lookup-fix_web_hosts-fixed (insert (https_host host) h fixed) true hosts,
    lookup-fix_web_hosts-fixed fixed b hosts,
  )

pub lookup-fix_web_hosts-broken :
    (key : Bytes) (fixed : Dict HostConfigV6) (b : Bool) (hosts : Dict HostConfigV6)
    → is_web_host key ≡ false
    → is_broken_host key ≡ true
    → lookup key hosts ≢ none
    → lookup (https_host key) (fix_web_hosts fixed b hosts).0 ≢ none
unfolding fix_web_hosts lookup
lookup-fix_web_hosts-broken key fixed b [] k q l = absurd (l refl)
lookup-fix_web_hosts-broken key fixed b ((host, h) ∷ hosts) k q l =
    let same : host ≡ key → https_host host ≡ https_host key = λ e. ap https_host e in
    ground (
      arith,
      lookup-fix_web_hosts-broken key (insert host h fixed) b hosts k q,
      lookup-fix_web_hosts-broken key (insert (https_host host) h fixed) true hosts k q,
      lookup-fix_web_hosts-broken key fixed b hosts k q,
      lookup-fix_web_hosts-fixed (https_host key) (insert (https_host host) h fixed) true hosts,
      lookup-insert (https_host key) (https_host host) h fixed,
      str_eq_iff host key,
      str_eq_iff (https_host host) (https_host key),
    )

-- The name that a host gets in the new file.
abbrev pub Becomes : Bytes → Bytes → Type 0
Becomes host key =
    ((is_web_host host ≡ true) × (key ≡ host))
    ⊎ ((is_web_host host ≡ false) × (is_broken_host host ≡ true) × (key ≡ https_host host))

-- A host of a file with these keys gets this name.
abbrev pub ComesFrom : Dict HostConfigV6 → Bytes → HostConfigV6 → Type 0
ComesFrom hosts key h = (host : Bytes) × (lookup host hosts ≡ some h) × Becomes host key

module _ (key : Bytes) (h : HostConfigV6) where
  ComesFrom-later :
      (host : Bytes) (v : HostConfigV6) (hosts : Dict HostConfigV6)
      → lookup host hosts ≡ none
      → ComesFrom hosts key h
      → ComesFrom ((host, v) ∷ hosts) key h
  unfolding lookup
  ComesFrom-later host v hosts fresh (g, e, b) = (g, ground (arith, str_eq_iff host g), b)

  ComesFrom-here :
      (host name : Bytes) (v : HostConfigV6) (fixed hosts : Dict HostConfigV6)
      → lookup host hosts ≡ none
      → (key ≡ name → Becomes host key)
      → (lookup key (insert name v fixed) ≡ some h) ⊎ ComesFrom hosts key h
      → (lookup key fixed ≡ some h) ⊎ ComesFrom ((host, v) ∷ hosts) key h
  unfolding lookup
  ComesFrom-here host name v fixed hosts fresh b (inr c) =
      inr (ComesFrom-later host v hosts fresh c)
  ComesFrom-here host name v fixed hosts fresh b (inl e) = elim (Bool-cases (str_eq name key)) [
    | inl q ↦
        let same : key ≡ name = sym ((str_eq_iff name key).0 q) in
        inr (host, ground (arith, lookup-insert key name v fixed, str_eq_refl host), b same)
    | inr q ↦ inl (ground (arith, lookup-insert key name v fixed))
  ]

  lookup-fix_web_hosts-ComesFrom :
      (fixed : Dict HostConfigV6) (b : Bool) (hosts : Dict HostConfigV6)
      → IsDict hosts
      → lookup key (fix_web_hosts fixed b hosts).0 ≡ some h
      → (lookup key fixed ≡ some h) ⊎ ComesFrom hosts key h
  unfolding fix_web_hosts
  lookup-fix_web_hosts-ComesFrom fixed b [] u e = inl e
  lookup-fix_web_hosts-ComesFrom fixed b ((host, v) ∷ hosts) (fresh, u) e =
      elim (Bool-cases (is_web_host host)) [
        | inl w ↦
            ComesFrom-here host host v fixed hosts fresh (λ q. inl (w, q))
              (lookup-fix_web_hosts-ComesFrom (insert host v fixed) b hosts u (ground arith))
        | inr w ↦ elim (Bool-cases (is_broken_host host)) [
          | inl k ↦
              ComesFrom-here host (https_host host) v fixed hosts fresh (λ q. inr (w, k, q))
                (lookup-fix_web_hosts-ComesFrom (insert (https_host host) v fixed) true hosts u
                  (ground arith))
          | inr k ↦ elim (lookup-fix_web_hosts-ComesFrom fixed b hosts u (ground arith)) [
            | inl f ↦ inl f
            | inr c ↦ inr (ComesFrom-later host v hosts fresh c)
          ]
        ]
      ]

-- Each host of the new file is one of the old file, with its keys.
pub fix_web_hosts-ComesFrom :
    (hosts : Dict HostConfigV6) (key : Bytes) (h : HostConfigV6)
    → IsDict hosts
    → lookup key (fix_web_hosts [] false hosts).0 ≡ some h
    → ComesFrom hosts key h
unfolding lookup
fix_web_hosts-ComesFrom hosts key h u e =
    elim (lookup-fix_web_hosts-ComesFrom key h [] false hosts u e) [
      | inl f ↦ absurd (ground arith)
      | inr c ↦ c
    ]
