-- ===== src/Mirror/Safety.antt =====
-- What the plan of mirror does not do unless it is told to: cmd/mirror-url.go.
use mc.Base.{ℕ, false, none, List, [], ◌∷◌, ◌≡◌, All, All-append, arith}
use mc.Content.{ClientContent}
use mc.Difference.Compare.{Setting, DiffMessage}
use mc.Difference.Report.{difference}
use mc.Difference.Sent.{
  IsSent, sent_first, sent_second, sent_both, sent_error, none_kind, size_kind, metadata_kind,
  mtime_kind, type_kind, difference-Sent,
}
use mc.Mirror.Plan.{MirrorSetting, Urls, orders, mirror_plan, copy_order}

-- An order to remove: neither an error nor a source.
abbrev pub IsRemoval : Urls → Type 0
IsRemoval u = (u.error ≡ none) × (u.source_content ≡ none)

module _ (m : MirrorSetting) where
  orders-KeepsTarget :
      {d : DiffMessage}
      → m.opts.is_remove ≡ false
      → m.opts.is_fake ≡ false
      → IsSent d
      → All (λ u. ¬ IsRemoval u) (orders m d)
  unfolding orders copy_order
  orders-KeepsTarget r f (sent_first s) = ground arith
  orders-KeepsTarget r f (sent_second t) = ground arith
  orders-KeepsTarget r f (sent_both s t none_kind) = ground arith
  orders-KeepsTarget r f (sent_both s t size_kind) = ground arith
  orders-KeepsTarget r f (sent_both s t metadata_kind) = ground arith
  orders-KeepsTarget r f (sent_both s t mtime_kind) = ground arith
  orders-KeepsTarget r f (sent_both s t type_kind) = ground arith
  orders-KeepsTarget r f (sent_error e) = ground arith

  plan-KeepsTarget :
      (ds : List DiffMessage)
      → m.opts.is_remove ≡ false
      → m.opts.is_fake ≡ false
      → All IsSent ds
      → All (λ u. ¬ IsRemoval u) (mirror_plan m ds)
  unfolding mirror_plan
  plan-KeepsTarget [] r f h = tt
  plan-KeepsTarget (d ∷ ds) r f h =
      All-append (λ u. ¬ IsRemoval u) (orders m d) (mirror_plan m ds) (orders-KeepsTarget r f h.0)
        (plan-KeepsTarget ds r f h.1)

-- Without --remove and without --fake, the plan that mirror makes of two listings removes nothing:
-- whatever the two sides list, and whether or not a listing fails, no order of the plan is a removal.
-- Removals that are queued for watched events are no part of the plan.
pub mirror_plan-KeepsTarget :
    (m : MirrorSetting) (o : Setting) (fuel : ℕ) (src tgt : List ClientContent)
    → m.opts.is_remove ≡ false
    → m.opts.is_fake ≡ false
    → All (λ u. ¬ IsRemoval u) (mirror_plan m (difference o fuel src tgt))
mirror_plan-KeepsTarget m o fuel src tgt r f =
    plan-KeepsTarget m (difference o fuel src tgt) r f (difference-Sent o fuel src tgt)
