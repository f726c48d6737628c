-- ===== src/Difference/Sent.antt =====
-- The forms of the messages that differenceInternal sends.
use mc.Base.{
  not, ℕ, zero, suc, Bool, true, false, Option, none, some, List, [], ◌∷◌, ◌++◌, All, All-append,
  if◌then◌else◌,
}
use mc.Errors.{
  invalid_source, invalid_target, DifferType, McError, in_none, in_size, in_metadata,
  in_aa_source_mtime, in_type,
}
use mc.Base.Strings.{str_lt, str_eq}
use mc.Base.Utf8.{valid_string}
use mc.Url.{url_join_path}
use mc.Content.{ClientContent}
use mc.Difference.Compare.{
  source_suffix, target_suffix, source_key, target_key, type_differs, Setting, Round, stop, fail,
  send, Ending, failed, unless_failed, Outcome, DiffMessage, only_first, only_second, both,
  error_message, round, compare_entries, difference_internal, advance, differ_messages,
  similar_messages, difference_of,
}
use mc.Difference.Report.{difference, last_words, is_passed_on}

-- A kind of difference that two entries of one name can have.
pub data IsPairKind : DifferType → Type 0 where
  none_kind : IsPairKind in_none
  size_kind : IsPairKind in_size
  metadata_kind : IsPairKind in_metadata
  mtime_kind : IsPairKind in_aa_source_mtime
  type_kind : IsPairKind in_type

pub data IsSent : DiffMessage → Type 0 where
  sent_first : (s : ClientContent) → IsSent (only_first s)
  sent_second : (t : ClientContent) → IsSent (only_second t)
  sent_both : {d : DifferType} (s t : ClientContent) → IsPairKind d → IsSent (both d s t)
  sent_error : (e : McError) → IsSent (error_message e)

-- All that a round sends.
data RoundSent : Round → Type 0 where
  stops : RoundSent stop
  fails : (e : McError) → RoundSent (fail e)
  sends :
      {ms : List DiffMessage} (ss ts : List ClientContent)
      → All IsSent ms
      → RoundSent (send ms ss ts)

data IsKind : Option DifferType → Type 0 where
  no_kind : IsKind none
  some_kind : {d : DifferType} → IsPairKind d → IsKind (some d)

if_case {ℓ} :
    {A : Type 0} (P : A → Type ℓ) (b : Bool) {x y : A} → P x → P y → P (if b then x else y)
if_case P true p q = p
if_case P false p q = q

sends_one :
    {m : DiffMessage} (ss ts : List ClientContent) → IsSent m → RoundSent (send (m ∷ []) ss ts)
sends_one ss ts h = sends ss ts (h, tt)

unless_failed-Sent : (e : Option McError) (r : Round) → RoundSent r → RoundSent (unless_failed e r)
unless_failed-Sent none r h = h
unless_failed-Sent (some e) r h = fails e

module _ (o : Setting) where
  difference_of-Kind : (s t : ClientContent) → IsKind (difference_of o s t)
  unfolding difference_of
  difference_of-Kind s t =
      if_case IsKind _ (some_kind size_kind) (
        if_case IsKind _ (some_kind mtime_kind)
          (if_case IsKind _ (some_kind metadata_kind) no_kind))

  found-Sent :
      (s t : ClientContent) (d : Option DifferType)
      → IsKind d
      → All IsSent (elim d [ none ↦ [] | some d ↦ both d s t ∷ [] ])
  found-Sent s t none h = tt
  found-Sent s t (some d) (some_kind h) = (sent_both s t h, tt)

  pair-Sent : (s t : ClientContent) → All IsSent (differ_messages o s t ++ similar_messages o s t)
  unfolding differ_messages similar_messages
  pair-Sent s t =
      All-append IsSent (differ_messages o s t) (similar_messages o s t)
        (found-Sent s t (difference_of o s t) (difference_of-Kind s t))
        (if_case (All IsSent) o.return_similar {x = both in_none s t ∷ []} {y = []}
          (sent_both s t none_kind, tt) tt)

  compare_entries-Sent :
      (s : ClientContent) (ss : List ClientContent) (t : ClientContent) (ts : List ClientContent)
      → RoundSent (compare_entries o s ss t ts)
  unfolding compare_entries
  compare_entries-Sent s ss t ts =
      if_case RoundSent (not (valid_string (source_suffix o s)))
        (sends_one ss (t ∷ ts)
          (sent_error (invalid_source (url_join_path o.target_url (source_suffix o s)))))
        (if_case RoundSent (not (valid_string (target_suffix o t)))
          (sends_one (s ∷ ss) ts
            (sent_error (invalid_target (url_join_path o.target_url (target_suffix o t)))))
          (if_case RoundSent (str_lt (source_key o s) (target_key o t))
            (sends_one ss (t ∷ ts) (sent_first s))
            (if_case RoundSent (str_eq (target_key o t) (source_key o s))
              (if_case RoundSent (type_differs s t)
                (sends_one (s ∷ ss) (t ∷ ts) (sent_both s t type_kind))
                (sends ss ts (pair-Sent s t)))
              (sends_one (s ∷ ss) ts (sent_second t)))))

  round-Sent : (src tgt : List ClientContent) → RoundSent (round o src tgt)
  unfolding round
  round-Sent [] [] = stops
  round-Sent [] (t ∷ ts) =
      if_case RoundSent _ stops (unless_failed-Sent t.err _ (sends_one [] ts (sent_second t)))
  round-Sent (s ∷ ss) [] = unless_failed-Sent s.err _ (sends_one ss [] (sent_first s))
  round-Sent (s ∷ ss) (t ∷ ts) =
      unless_failed-Sent s.err _ (unless_failed-Sent t.err _ (compare_entries-Sent s ss t ts))

  advance-Sent :
      (rest : List ClientContent → List ClientContent → Outcome) (r : Round)
      → RoundSent r
      → ((ss ts : List ClientContent) → All IsSent (rest ss ts).messages)
      → All IsSent (advance rest r).messages
  advance-Sent rest stop stops k = tt
  advance-Sent rest (fail e) (fails _) k = tt
  advance-Sent rest (send ms ss ts) (sends _ _ h) k =
      All-append IsSent ms (rest ss ts).messages h (k ss ts)

  pub difference_internal-Sent :
      (fuel : ℕ) (src tgt : List ClientContent)
      → All IsSent (difference_internal o fuel src tgt).messages
  unfolding difference_internal
  difference_internal-Sent zero src tgt = tt
  difference_internal-Sent (suc fuel) src tgt =
      advance-Sent (difference_internal o fuel) (round o src tgt) (round-Sent src tgt)
        (difference_internal-Sent fuel)

  last_words-Sent : (e : Ending) → All IsSent (last_words e)
  last_words-Sent (failed e) =
      if_case (All IsSent) (is_passed_on e) {x = error_message e ∷ []} {y = []} (sent_error e, tt)
        tt
  last_words-Sent _ = tt

  pub difference-Sent :
      (fuel : ℕ) (src tgt : List ClientContent) → All IsSent (difference o fuel src tgt)
  unfolding difference
  difference-Sent fuel src tgt =
      All-append IsSent (difference_internal o fuel src tgt).messages _
        (difference_internal-Sent fuel src tgt)
        (last_words-Sent (difference_internal o fuel src tgt).ending)
