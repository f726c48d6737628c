-- ===== src/Difference/Refines.antt =====
-- differenceInternal on two sorted listings of sound files.
use mc.Base.{
  ℕ, zero, suc, ◌+◌, ◌<◌, true, false, none, List, [], ◌∷◌, ◌++◌, ◌≡◌, refl, sym, ap, subst, ◌∙◌,
  inl, inr, arith, length, All, Bool-cases,
}
use mc.Base.Strings.{Bytes, str_lt, str_eq}
use mc.Base.Strings.Laws.{str_lt_irrefl, str_eq_refl, str_eq_iff, str_lt_total}
use mc.Content.{ClientContent}
use mc.Difference.Compare.{
  Setting, send, finished, Outcome, only_first, only_second, round, compare_entries,
  difference_internal, type_differs, source_suffix, target_suffix, source_key, target_key,
  differ_messages, similar_messages,
}
use mc.Difference.Merge.{
  changed_sources, outdated, outdated-Above, outdated_missing, changed_sources_pair, reported_first,
  reported_second, reported_both, Above, Rising, Above-trans, Above-holds, missing_from,
  missing_from-Above, IsSound, find-Above, shared, shared-Above, reported_first-append,
  reported_second-append, reported_both-append, pair_messages-IsShared,
}

-- Both listings are read to the end; they hold sound files with valid names, which rise.
pub record IsListing (o : Setting) (src tgt : List ClientContent) : Type 0 where
  pub whole : o.source_listing_only ≡ false
  pub source_sound : All (IsSound (source_suffix o)) src
  pub target_sound : All (IsSound (target_suffix o)) tgt
  pub source_rises : Rising (source_key o) src
  pub target_rises : Rising (target_key o) tgt

-- The comparison ends, and reports what each side lacks and what is said of the shared names.
pub record IsDifference (o : Setting) (src tgt : List ClientContent) (out : Outcome) : Type 0 where
  pub ends : out.ending ≡ finished
  pub first : reported_first out.messages ≡ missing_from (source_key o) (target_key o) src tgt
  pub second : reported_second out.messages ≡ missing_from (target_key o) (source_key o) tgt src
  pub common : reported_both out.messages ≡ shared o src tgt
  pub changed : changed_sources out.messages ≡ outdated o src tgt

tail_source :
    {o : Setting} {s : ClientContent} {ss ts : List ClientContent}
    → IsListing o (s ∷ ss) ts
    → IsListing o ss ts
tail_source l = record {
  whole = l.whole;
  source_sound = l.source_sound.1;
  target_sound = l.target_sound;
  source_rises = l.source_rises.1;
  target_rises = l.target_rises;
}

tail_target :
    {o : Setting} {ss : List ClientContent} {t : ClientContent} {ts : List ClientContent}
    → IsListing o ss (t ∷ ts)
    → IsListing o ss ts
tail_target l = record {
  whole = l.whole;
  source_sound = l.source_sound;
  target_sound = l.target_sound.1;
  source_rises = l.source_rises;
  target_rises = l.target_rises.1;
}

module _ (o : Setting) where
  round-only_second :
      (t : ClientContent) (ts : List ClientContent)
      → o.source_listing_only ≡ false
      → t.err ≡ none
      → round o [] (t ∷ ts) ≡ send (only_second t ∷ []) [] ts
  unfolding round
  round-only_second t ts w e = rw (w, e)

  round-only_first :
      (s : ClientContent) (ss : List ClientContent)
      → s.err ≡ none
      → round o (s ∷ ss) [] ≡ send (only_first s ∷ []) ss []
  unfolding round
  round-only_first s ss e = rw e

  module _ (s : ClientContent) (ss : List ClientContent) (t : ClientContent)
      (ts : List ClientContent) (hs : IsSound (source_suffix o) s)
      (ht : IsSound (target_suffix o) t) where
    round_less :
        str_lt (source_key o s) (target_key o t) ≡ true
        → round o (s ∷ ss) (t ∷ ts) ≡ send (only_first s ∷ []) ss (t ∷ ts)
    unfolding round compare_entries
    round_less h = ground arith

    round_equal :
        source_key o s ≡ target_key o t
        → round o (s ∷ ss) (t ∷ ts) ≡ send (differ_messages o s t ++ similar_messages o s t) ss ts
    unfolding round compare_entries type_differs
    round_equal h = ground (arith, str_lt_irrefl (target_key o t), str_eq_refl (target_key o t))

    round_greater :
        str_lt (source_key o s) (target_key o t) ≡ false
        → str_eq (target_key o t) (source_key o s) ≡ false
        → round o (s ∷ ss) (t ∷ ts) ≡ send (only_second t ∷ []) (s ∷ ss) ts
    unfolding round compare_entries
    round_greater h k = ground arith

  -- One more name that only one side has, or that both have.
  first-IsDifference :
      (s : ClientContent) (ss ts : List ClientContent) (out : Outcome)
      → Above (target_key o) (source_key o s) ts
      → IsDifference o ss ts out
      → IsDifference o
          (s ∷ ss)
          ts
          (record { messages = only_first s ∷ [] ++ out.messages; ending = out.ending })
  first-IsDifference s ss ts out a d = record {
    ends = d.ends;
    first = rw (Above-holds (target_key o) (source_key o s) ts a) (ap (λ l. s ∷ l) d.first);
    second = d.second ∙ sym (missing_from-Above (target_key o) (source_key o) ts s ss a);
    common = rw (find-Above (target_key o) (source_key o s) ts a, shared) d.common;
    changed = ap (λ l. s ∷ l) d.changed ∙ sym (outdated_missing o s ss ts a);
  }

  second-IsDifference :
      (ss : List ClientContent) (t : ClientContent) (ts : List ClientContent) (out : Outcome)
      → Above (source_key o) (target_key o t) ss
      → IsDifference o ss ts out
      → IsDifference o ss
          (t ∷ ts)
          (record { messages = only_second t ∷ [] ++ out.messages; ending = out.ending })
  second-IsDifference ss t ts out a d = record {
    ends = d.ends;
    first = d.first ∙ sym (missing_from-Above (source_key o) (target_key o) ss t ts a);
    second = rw (Above-holds (source_key o) (target_key o t) ss a) (ap (λ l. t ∷ l) d.second);
    common = d.common ∙ sym (shared-Above o ss t ts a);
    changed = d.changed ∙ sym (outdated-Above o ss t ts a);
  }

  both-IsDifference :
      (s : ClientContent) (ss : List ClientContent) (t : ClientContent) (ts : List ClientContent)
      (out : Outcome)
      → source_key o s ≡ target_key o t
      → Above (source_key o) (target_key o t) ss
      → Above (target_key o) (source_key o s) ts
      → IsDifference o ss ts out
      → IsDifference o (s ∷ ss) (t ∷ ts) (record {
        messages = (differ_messages o s t ++ similar_messages o s t) ++ out.messages;
        ending = out.ending;
      })
  both-IsDifference s ss t ts out e above_s above_t d =
      let pair = differ_messages o s t ++ similar_messages o s t in
      let kinds = pair_messages-IsShared o s t in
      let same : str_eq (target_key o t) (source_key o s) ≡ true =
        (str_eq_iff (target_key o t) (source_key o s)).1 (sym e) in
      let same' : str_eq (source_key o s) (target_key o t) ≡ true =
        (str_eq_iff (source_key o s) (target_key o t)).1 e in
      record {
        ends = d.ends;
        first =
            reported_first-append pair out.messages kinds
            ∙ d.first
            ∙ rw same (sym (missing_from-Above (source_key o) (target_key o) ss t ts above_s));
        second =
            reported_second-append pair out.messages kinds
            ∙ d.second
            ∙ rw same' (sym (missing_from-Above (target_key o) (source_key o) ts s ss above_t));
        common =
            reported_both-append pair out.messages kinds
            ∙ ap (λ l. pair ++ l) (d.common ∙ sym (shared-Above o ss t ts above_s))
            ∙ rw (same, shared);
        changed =
            changed_sources_pair o s ss t ts out.messages same
              (d.changed ∙ sym (outdated-Above o ss t ts above_s));
      }

  -- The name of the first target behind those of the sources, by the tests of the round.
  rise_to :
      (s : ClientContent) (ss : List ClientContent) (k : Bytes)
      → str_lt k (source_key o s) ≡ true
      → Rising (source_key o) (s ∷ ss)
      → Above (source_key o) k (s ∷ ss)
  rise_to s ss k h r = (h, Above-trans (source_key o) k (source_key o s) ss h r.0)

  refines :
      (fuel : ℕ) (src tgt : List ClientContent)
      → IsListing o src tgt
      → length src + length tgt < fuel
      → IsDifference o src tgt (difference_internal o fuel src tgt)
  unfolding difference_internal
  refines zero src tgt l lt = absurd (omega arith)
  refines (suc fuel) [] [] l lt =
      unfold round in
      record { ends = refl; first = refl; second = refl; common = refl; changed = refl }
  refines (suc fuel) [] (t ∷ ts) l lt =
      rw (round-only_second t ts l.whole l.target_sound.0.0)
        (second-IsDifference [] t ts _ tt (refines fuel [] ts (tail_target l) (omega arith)))
  refines (suc fuel) (s ∷ ss) [] l lt =
      rw (round-only_first s ss l.source_sound.0.0)
        (first-IsDifference s ss [] _ tt (refines fuel ss [] (tail_source l) (omega arith)))
  refines (suc fuel) (s ∷ ss) (t ∷ ts) l lt =
      elim (Bool-cases (str_lt (source_key o s) (target_key o t))) [
        | inl less ↦ rw (round_less s ss t ts l.source_sound.0 l.target_sound.0 less) (
            first-IsDifference s ss (t ∷ ts) _
              (
                less,
                Above-trans (target_key o) (source_key o s) (target_key o t) ts less
                    l.target_rises.0,
              )
              (refines fuel ss (t ∷ ts) (tail_source l) (omega arith)))
        | inr not_less ↦ elim (Bool-cases (str_eq (target_key o t) (source_key o s))) [
          | inl same ↦
              let e : source_key o s ≡ target_key o t =
                sym ((str_eq_iff (target_key o t) (source_key o s)).0 same) in
              rw (round_equal s ss t ts l.source_sound.0 l.target_sound.0 e) (
                both-IsDifference s ss t ts _ e
                  (subst (λ k. Above (source_key o) k ss) e l.source_rises.0)
                  (subst (λ k. Above (target_key o) k ts) (sym e) l.target_rises.0)
                  (refines fuel ss ts (tail_source (tail_target l)) (omega arith)))
          | inr other ↦
              rw (round_greater s ss t ts l.source_sound.0 l.target_sound.0 not_less other) (
                second-IsDifference (s ∷ ss) t ts _
                  (rise_to s ss (target_key o t)
                    (str_lt_total (source_key o s) (target_key o t) not_less other) l.source_rises)
                  (refines fuel (s ∷ ss) ts (tail_target l) (omega arith)))
        ]
      ]

-- The comparison of two listings of sound files whose names rise, of which the target is read to the
-- end (no sourceListingOnly), ends within as many rounds as
-- there are entries and one more. It reports as only in the first exactly the sources whose name
-- the target lacks, in order, as only in the second exactly the targets whose name the source
-- lacks, in order, and for each name that both have, in order, what the comparison of the two
-- entries says. The messages that ask for a copy name exactly the sources that are not up to date
-- in the target, in order.
pub difference_internal-IsDifference :
    (o : Setting) (fuel : ℕ) (src tgt : List ClientContent)
    → IsListing o src tgt
    → length src + length tgt < fuel
    → IsDifference o src tgt (difference_internal o fuel src tgt)
difference_internal-IsDifference o fuel src tgt l lt = refines o fuel src tgt l lt
