-- ===== src/Copy/Distinct.antt =====
-- Copies of several sources into one folder: the filter of prepareCopyURLsTypeD of cmd/cp-url.go.
use mc.Base.{
  subst, Option, Bool-cases, if◌then◌else◌, false, not, ◌&&◌, none, some, List, [], ◌∷◌, ◌≡◌, refl,
  arith, inl, inr, Option-cases,
}
use mc.Base.Strings.{Bytes, contains, str_eq}
use mc.Base.Strings.Laws.{str_eq_refl, str_eq_iff}
use mc.Mirror.Plan.{Urls}
use mc.Copy.World.{World}
use mc.Copy.Guess.{CopyUrlsContent, PrepareCopyUrlsOpts}
use mc.Copy.Orders.{filter_targets, target_of, copies_of_all, prepare_copy_urls_type_d}

-- The targets of orders, and the orders that have none, which are errors.
abbrev pub targets : List Urls → List Bytes
targets [] = []
targets (u ∷ us) = elim (target_of u) [ none ↦ targets us | some t ↦ t ∷ targets us ]

abbrev pub without_target : List Urls → List Urls
without_target [] = []
without_target (u ∷ us) = elim (target_of u) [
  | none ↦ u ∷ without_target us
  | some t ↦ without_target us
]

-- No text stands twice.
abbrev pub AllDistinct : List Bytes → Type 0
AllDistinct [] = Unit
AllDistinct (t ∷ ts) = (contains ts t ≡ false) × AllDistinct ts

filter-without_target :
    (seen : List Bytes) (us : List Urls)
    → without_target (filter_targets seen us) ≡ without_target us
unfolding filter_targets
filter-without_target seen [] = refl
filter-without_target seen (u ∷ us) = elim (Option-cases (target_of u)) [
  | inl e ↦ ground (arith, filter-without_target seen us)
  | inr (t, e) ↦ ground (arith, filter-without_target seen us, filter-without_target (t ∷ seen) us)
]

contains-targets :
    (seen : List Bytes) (us : List Urls) (a : Bytes)
    → contains (targets (filter_targets seen us)) a
      ≡ not (contains seen a) && contains (targets us) a
unfolding filter_targets
contains-targets seen [] a = ground arith
contains-targets seen (u ∷ us) a = elim (Option-cases (target_of u)) [
  | inl e ↦ ground (arith, contains-targets seen us a)
  | inr (t, e) ↦
      ground (arith, contains-targets seen us a, contains-targets (t ∷ seen) us a, str_eq_iff t a)
]

filter-AllDistinct :
    (seen : List Bytes) (us : List Urls) → AllDistinct (targets (filter_targets seen us))
unfolding filter_targets
filter-AllDistinct seen [] = tt
filter-AllDistinct seen (u ∷ us) = elim (Option-cases (target_of u)) [
  | inl e ↦ ground (arith, filter-AllDistinct seen us)
  | inr (t, e) ↦ ground (
    arith,
    filter-AllDistinct seen us,
    filter-AllDistinct (t ∷ seen) us,
    contains-targets (t ∷ seen) us t,
    str_eq_refl t,
  )
]

-- The first order for a target.
abbrev pub order_for : Bytes → List Urls → Option Urls
order_for t [] = none
order_for t (u ∷ us) = elim (target_of u) [
  | none ↦ order_for t us
  | some s ↦ if str_eq s t then some u else order_for t us
]

-- Orders of a list, in its order, with some left out.
pub data IsPart : List Urls → List Urls → Type 0 where
  part_end : IsPart [] []
  part_kept : {u : Urls} {us vs : List Urls} → IsPart us vs → IsPart (u ∷ us) (u ∷ vs)
  part_left_out : {u : Urls} {us vs : List Urls} → IsPart us vs → IsPart us (u ∷ vs)

order_for-filter :
    (seen : List Bytes) (us : List Urls) (t : Bytes)
    → contains seen t ≡ false
    → order_for t (filter_targets seen us) ≡ order_for t us
unfolding filter_targets
order_for-filter seen [] t h = refl
order_for-filter seen (u ∷ us) t h = elim (Option-cases (target_of u)) [
  | inl e ↦ ground (arith, order_for-filter seen us t h)
  | inr (s, e) ↦
      ground (arith, order_for-filter seen us t h, order_for-filter (s ∷ seen) us t, str_eq_iff s t)
]

filter-IsPart : (seen : List Bytes) (us : List Urls) → IsPart (filter_targets seen us) us
unfolding filter_targets
filter-IsPart seen [] = part_end
filter-IsPart seen (u ∷ us) = elim (Option-cases (target_of u)) [
  | inl e ↦
      let q : u ∷ filter_targets seen us ≡ filter_targets seen (u ∷ us) = ground arith in
      subst (λ vs. IsPart vs (u ∷ us)) q (part_kept (filter-IsPart seen us))
  | inr (t, e) ↦ elim (Bool-cases (contains seen t)) [
    | inl c ↦
        let q : filter_targets seen us ≡ filter_targets seen (u ∷ us) = ground arith in
        subst (λ vs. IsPart vs (u ∷ us)) q (part_left_out (filter-IsPart seen us))
    | inr c ↦
        let q : u ∷ filter_targets (t ∷ seen) us ≡ filter_targets seen (u ∷ us) = ground arith in
        subst (λ vs. IsPart vs (u ∷ us)) q (part_kept (filter-IsPart (t ∷ seen) us))
  ]
]

-- Orders without doubles: they are orders that were asked for, in the same order; no target stands
-- twice; each target that was asked for is there, by the first order for it; and the errors are all
-- there, in order.
pub record IsFiltered (asked us : List Urls) : Type 0 where
  pub part : IsPart us asked
  pub distinct : AllDistinct (targets us)
  pub first : (t : Bytes) → order_for t us ≡ order_for t asked
  pub complete : (t : Bytes) → contains (targets us) t ≡ contains (targets asked) t
  pub errors : without_target us ≡ without_target asked

-- Copying several sources into a folder writes each target once. The orders are some of those that
-- the sources give one by one, in the same order; every target is still written, by the first of the
-- orders for it, and by no other; and every error is passed on, in order.
pub prepare_copy_urls_type_d-IsFiltered :
    (w : World) (o : PrepareCopyUrlsOpts) (cc : CopyUrlsContent)
    → IsFiltered
        (copies_of_all w o cc (o.source_url ∷ o.more_source_urls))
        (prepare_copy_urls_type_d w o cc)
unfolding prepare_copy_urls_type_d
prepare_copy_urls_type_d-IsFiltered w o cc =
    let asked = copies_of_all w o cc (o.source_url ∷ o.more_source_urls) in
    record {
      part = filter-IsPart [] asked;
      distinct = filter-AllDistinct [] asked;
      first = λ t. order_for-filter [] asked t refl;
      complete = contains-targets [] asked;
      errors = filter-without_target [] asked;
    }
