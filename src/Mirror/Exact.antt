-- ===== src/Mirror/Exact.antt =====
-- The plan of a mirror without exclusions, against the two listings.
use mc.Base.{
  ℕ, ◌+◌, ◌<◌, true, false, none, some, List, [], ◌∷◌, ◌++◌, ◌≡◌, refl, ap, ◌∙◌, All, arith, length,
  append-nil,
}
use mc.Errors.{in_none, in_size, in_metadata, in_type, in_aa_source_mtime}
use mc.Content.{ClientContent}
use mc.Difference.Compare.{
  only_first, only_second, both, Setting, DiffMessage, difference_internal, finished, source_key,
  target_key,
}
use mc.Difference.Report.{difference}
use mc.Difference.Merge.{missing_from, reported_first, reported_second, changed_sources, outdated}
use mc.Difference.Refines.{IsListing, difference_internal-IsDifference}
use mc.Difference.SourceOnly.{AreSorted, source_only}
use mc.Difference.Sent.{
  IsSent, sent_first, sent_second, sent_both, sent_error, none_kind, size_kind, metadata_kind,
  mtime_kind, type_kind, difference-Sent,
}
use mc.Mirror.Plan.{
  MirrorSetting, Urls, orders, mirror_plan, copy_order, remove_order, is_excluded,
  match_exclude_options, match_exclude_bucket_options,
}

-- The targets of the orders to remove.
abbrev pub removed : List Urls → List ClientContent
removed [] = []
removed (u ∷ us) = elim u.error [
  | some e ↦ removed us
  | none ↦ elim u.source_content [
    | some s ↦ removed us
    | none ↦ elim u.target_content [ none ↦ removed us | some t ↦ t ∷ removed us ]
  ]
]

-- The sources of the orders to copy.
abbrev pub copied : List Urls → List ClientContent
copied [] = []
copied (u ∷ us) = elim u.error [
  | some e ↦ copied us
  | none ↦ elim u.source_content [ none ↦ copied us | some s ↦ s ∷ copied us ]
]

-- No --exclude, --exclude-bucket or --exclude-storageclass.
pub record ExcludesNothing (m : MirrorSetting) : Type 0 where
  pub no_options : m.opts.exclude_options ≡ []
  pub no_classes : m.opts.exclude_storage_classes ≡ []
  pub no_buckets : m.opts.exclude_buckets ≡ []

excludes_nothing :
    (m : MirrorSetting) (d : DiffMessage) → ExcludesNothing m → is_excluded m d ≡ false
unfolding is_excluded match_exclude_options match_exclude_bucket_options
excludes_nothing m d x = rw (x.no_options, x.no_classes, x.no_buckets) (ground arith)

module _ (m : MirrorSetting) (x : ExcludesNothing m) where
  removed-orders :
      {d : DiffMessage} (us : List Urls) (ds : List DiffMessage)
      → m.opts.is_remove ≡ true
      → IsSent d
      → removed us ≡ reported_second ds
      → removed (orders m d ++ us) ≡ reported_second (d ∷ ds)
  unfolding orders copy_order remove_order
  removed-orders us ds r (sent_first s) h = ground (arith, excludes_nothing m (only_first s) x)
  removed-orders us ds r (sent_second t) h = ground (arith, excludes_nothing m (only_second t) x)
  removed-orders us ds r (sent_both s t none_kind) h =
      ground (arith, excludes_nothing m (both in_none s t) x)
  removed-orders us ds r (sent_both s t size_kind) h =
      ground (arith, excludes_nothing m (both in_size s t) x)
  removed-orders us ds r (sent_both s t metadata_kind) h =
      ground (arith, excludes_nothing m (both in_metadata s t) x)
  removed-orders us ds r (sent_both s t mtime_kind) h =
      ground (arith, excludes_nothing m (both in_aa_source_mtime s t) x)
  removed-orders us ds r (sent_both s t type_kind) h =
      ground (arith, excludes_nothing m (both in_type s t) x)
  removed-orders us ds r (sent_error e) h = ground arith

  copied-orders :
      {d : DiffMessage} (us : List Urls) (ds : List DiffMessage)
      → m.opts.is_overwrite ≡ true
      → m.opts.is_fake ≡ false
      → IsSent d
      → copied us ≡ changed_sources ds
      → copied (orders m d ++ us) ≡ changed_sources (d ∷ ds)
  unfolding orders copy_order remove_order
  copied-orders us ds o f (sent_first s) h = ground (arith, excludes_nothing m (only_first s) x)
  copied-orders us ds o f (sent_second t) h = ground (arith, excludes_nothing m (only_second t) x)
  copied-orders us ds o f (sent_both s t none_kind) h =
      ground (arith, excludes_nothing m (both in_none s t) x)
  copied-orders us ds o f (sent_both s t size_kind) h =
      ground (arith, excludes_nothing m (both in_size s t) x)
  copied-orders us ds o f (sent_both s t metadata_kind) h =
      ground (arith, excludes_nothing m (both in_metadata s t) x)
  copied-orders us ds o f (sent_both s t mtime_kind) h =
      ground (arith, excludes_nothing m (both in_aa_source_mtime s t) x)
  copied-orders us ds o f (sent_both s t type_kind) h =
      ground (arith, excludes_nothing m (both in_type s t) x)
  copied-orders us ds o f (sent_error e) h = ground arith

  new-orders :
      {d : DiffMessage} (us : List Urls) (ds : List DiffMessage)
      → m.opts.is_overwrite ≡ false
      → m.opts.is_fake ≡ false
      → m.opts.active_active ≡ false
      → IsSent d
      → copied us ≡ reported_first ds
      → copied (orders m d ++ us) ≡ reported_first (d ∷ ds)
  unfolding orders copy_order remove_order
  new-orders us ds o f a (sent_first s) h = ground (arith, excludes_nothing m (only_first s) x)
  new-orders us ds o f a (sent_second t) h = ground (arith, excludes_nothing m (only_second t) x)
  new-orders us ds o f a (sent_both s t none_kind) h =
      ground (arith, excludes_nothing m (both in_none s t) x)
  new-orders us ds o f a (sent_both s t size_kind) h =
      ground (arith, excludes_nothing m (both in_size s t) x)
  new-orders us ds o f a (sent_both s t metadata_kind) h =
      ground (arith, excludes_nothing m (both in_metadata s t) x)
  new-orders us ds o f a (sent_both s t mtime_kind) h =
      ground (arith, excludes_nothing m (both in_aa_source_mtime s t) x)
  new-orders us ds o f a (sent_both s t type_kind) h =
      ground (arith, excludes_nothing m (both in_type s t) x)
  new-orders us ds o f a (sent_error e) h = ground arith

  removed-plan :
      (ds : List DiffMessage)
      → m.opts.is_remove ≡ true
      → All IsSent ds
      → removed (mirror_plan m ds) ≡ reported_second ds
  unfolding mirror_plan
  removed-plan [] r h = refl
  removed-plan (d ∷ ds) r h = removed-orders (mirror_plan m ds) ds r h.0 (removed-plan ds r h.1)

  copied-plan :
      (ds : List DiffMessage)
      → m.opts.is_overwrite ≡ true
      → m.opts.is_fake ≡ false
      → All IsSent ds
      → copied (mirror_plan m ds) ≡ changed_sources ds
  unfolding mirror_plan
  copied-plan [] o f h = refl
  copied-plan (d ∷ ds) o f h = copied-orders (mirror_plan m ds) ds o f h.0 (copied-plan ds o f h.1)

  new-plan :
      (ds : List DiffMessage)
      → m.opts.is_overwrite ≡ false
      → m.opts.is_fake ≡ false
      → m.opts.active_active ≡ false
      → All IsSent ds
      → copied (mirror_plan m ds) ≡ reported_first ds
  unfolding mirror_plan
  new-plan [] o f a h = refl
  new-plan (d ∷ ds) o f a h = new-orders (mirror_plan m ds) ds o f a h.0 (new-plan ds o f a h.1)

-- The messages of a comparison that ends are all that the channel carries.
difference-messages :
    (o : Setting) (fuel : ℕ) (src tgt : List ClientContent)
    → (difference_internal o fuel src tgt).ending ≡ finished
    → difference o fuel src tgt ≡ (difference_internal o fuel src tgt).messages
unfolding difference
difference-messages o fuel src tgt h =
    rw h (append-nil (difference_internal o fuel src tgt).messages)

module _ (m : MirrorSetting) (o : Setting) (fuel : ℕ) (src tgt : List ClientContent)
    (x : ExcludesNothing m) (l : IsListing o src tgt) (lt : length src + length tgt < fuel) where
  -- With --remove and no exclusions, mirror removes exactly the objects of the target whose name no
  -- object of the source has, in order, for two listings of sound files whose names rise and which
  -- are read to the end, as mirror does with --remove.
  pub removed-mirror_plan :
      m.opts.is_remove ≡ true
      → removed (mirror_plan m (difference o fuel src tgt))
        ≡ missing_from (target_key o) (source_key o) tgt src
  removed-mirror_plan r =
      let d = difference_internal-IsDifference o fuel src tgt l lt in
      removed-plan m x (difference o fuel src tgt) r (difference-Sent o fuel src tgt)
      ∙ ap reported_second (difference-messages o fuel src tgt d.ends)
      ∙ d.second

module _ (m : MirrorSetting) (o : Setting) (fuel : ℕ) (src tgt : List ClientContent)
    (x : ExcludesNothing m) (l : AreSorted o src tgt) (lt : length src + length tgt < fuel) where
  -- With --overwrite, without --fake and with no exclusions, mirror copies exactly the objects of
  -- the source that the target lacks or that differ from the target's object of the same name, in
  -- order, for two listings of sound files whose names rise. This holds where the target is read to
  -- the end, and where the comparison stops at the end of the source, as it does for mirror without
  -- --remove and --active-active.
  pub copied-mirror_plan_overwrite :
      m.opts.is_overwrite ≡ true
      → m.opts.is_fake ≡ false
      → copied (mirror_plan m (difference o fuel src tgt)) ≡ outdated o src tgt
  copied-mirror_plan_overwrite w f =
      let (ends, first, changed) = source_only o fuel src tgt l lt in
      copied-plan m x (difference o fuel src tgt) w f (difference-Sent o fuel src tgt)
      ∙ ap changed_sources (difference-messages o fuel src tgt ends)
      ∙ changed

  -- Without --overwrite, --fake and --active-active and with no exclusions, mirror copies exactly
  -- the objects of the source whose name the target lacks, in order, for two listings of sound
  -- files whose names rise. This holds where the target is read to the end, as with --remove, and
  -- where the comparison stops at the end of the source, as without it.
  pub copied-mirror_plan_new :
      m.opts.is_overwrite ≡ false
      → m.opts.is_fake ≡ false
      → m.opts.active_active ≡ false
      → copied (mirror_plan m (difference o fuel src tgt))
        ≡ missing_from (source_key o) (target_key o) src tgt
  copied-mirror_plan_new w f a =
      let (ends, first, changed) = source_only o fuel src tgt l lt in
      new-plan m x (difference o fuel src tgt) w f a (difference-Sent o fuel src tgt)
      ∙ ap reported_first (difference-messages o fuel src tgt ends)
      ∙ first
