-- ===== src/Mirror/Retry.antt =====
-- The retries of an upload: retry of cmd/utils.go under doMirror of cmd/mirror-main.go.
use mc.Base.{
  ℕ, zero, suc, ◌+◌, ◌<◌, ◌≤◌, Bool, true, false, Option, none, some, ◌≡◌, refl, ◌≢◌, ◌↔◌, ◌⊎◌, inl,
  inr, arith, ap, sym, ◌∙◌, Option-cases, Bool-cases, ◌==◌,
}
use mc.Errors.{McError}
use mc.Content.{ClientContent}
use mc.Mirror.Plan.{Urls}
use mc.Mirror.Job.{JobOptions, JobWorld, retry, prepared, do_mirror}

-- The message that do_mirror sends: its target has the metadata.
abbrev pub sent_of : JobOptions → JobWorld → Urls → ClientContent → ClientContent → Urls
sent_of o w u c t = record u { target_content = some (prepared o w c t) }

-- An attempt, one of a number of attempts, that succeeds where all before it have failed and the
-- command was not cancelled behind any of them.
pub record IsReached (action : ℕ → Option McError) (cancelled : ℕ → Bool) (first rounds n : ℕ)
    : Type 0 where
  pub from : first ≤ n
  pub within : n < first + rounds
  pub succeeds : action n ≡ none
  pub before : (i : ℕ) → first ≤ i → i < n → (action i ≢ none) × (cancelled i ≡ false)

module _ (action : ℕ → Option McError) (cancelled : ℕ → Bool) where
  retry-IsReached :
      (rounds k : ℕ) (last : Option McError)
      → (last ≢ none) ⊎ (0 < rounds)
      → retry action cancelled rounds k last ≡ none
      → (n : ℕ) × IsReached action cancelled k rounds n
  unfolding retry
  retry-IsReached zero k last p h = absurd (ground arith)
  retry-IsReached (suc rounds) k last p h = elim (Option-cases (action k)) [
    | inl e ↦ (
      k,
      record {
        from = omega arith;
        within = omega arith;
        succeeds = e;
        before = λ i a b. absurd (omega arith);
      },
    )
    | inr (x, e) ↦ elim (Bool-cases (cancelled k)) [
      | inl c ↦ absurd (ground arith)
      | inr c ↦
          let (n, r) = retry-IsReached rounds (k + 1) (some x) (inl (λ q. cc)) (ground arith) in
          (
            n,
            record {
              from = omega (arith, r.from);
              within = omega (arith, r.within);
              succeeds = r.succeeds;
              before = λ i a b. ground (arith, r.before i);
            },
          )
    ]
  ]

  before-IsReached :
      (k rounds n : ℕ) (x : McError)
      → IsReached action cancelled k rounds n
      → action k ≡ some x
      → k < n
  before-IsReached k rounds n x r e = elim (Bool-cases (n == k)) [
    | inl q ↦ let n_is : n ≡ k = ground arith in absurd (ground (arith, r.succeeds, ap action n_is))
    | inr q ↦ grind (arith, r.from)
  ]

  IsReached-retry :
      (rounds k n : ℕ) (last : Option McError)
      → IsReached action cancelled k rounds n
      → retry action cancelled rounds k last ≡ none
  unfolding retry
  IsReached-retry zero k n last r = absurd (omega (arith, r.from, r.within))
  IsReached-retry (suc rounds) k n last r = elim (Option-cases (action k)) [
    | inl e ↦ ground arith
    | inr (x, e) ↦
        let later : k < n = before-IsReached k (suc rounds) n x r e in
        let (a, c) = r.before k (omega arith) later in
        let rest = IsReached-retry rounds (k + 1) n (some x) (record {
          from = omega (arith, later);
          within = omega (arith, r.within);
          succeeds = r.succeeds;
          before = λ i f b. r.before i (omega (arith, f)) b;
        }) in
        ground arith
  ]

do_mirror-retry :
    (o : JobOptions) (w : JobWorld) (u : Urls) (c t : ClientContent)
    → o.plan.is_fake ≡ false
    → o.is_retriable ≡ true
    → u.error ≡ none
    → (do_mirror o w u c t).error
      ≡ retry (w.upload (sent_of o w u c t)) (w.cancelled (sent_of o w u c t)) 4 0 none
unfolding do_mirror
do_mirror-retry o w u c t f i e = rw (e, f, i) refl

-- An upload with retries, not with --fake, is without an error exactly where one of its four attempts succeeds, all
-- attempts before it have failed, and the command was not cancelled behind any of them.
pub do_mirror_retries :
    (o : JobOptions) (w : JobWorld) (u : Urls) (c t : ClientContent)
    → o.plan.is_fake ≡ false
    → o.is_retriable ≡ true
    → u.error ≡ none
    → ((do_mirror o w u c t).error ≡ none)
      ↔ ((n : ℕ) × IsReached (w.upload (sent_of o w u c t)) (w.cancelled (sent_of o w u c t)) 0 4 n)
do_mirror_retries o w u c t f i e =
    let is = do_mirror-retry o w u c t f i e in
    (
      (λ h.
          retry-IsReached (w.upload (sent_of o w u c t)) (w.cancelled (sent_of o w u c t)) 4 0 none
            (inr (omega arith)) (sym is ∙ h)),
      (λ (n, r).
          is
          ∙ IsReached-retry (w.upload (sent_of o w u c t)) (w.cancelled (sent_of o w u c t)) 4 0 n
              none r),
    )
