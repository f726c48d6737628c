-- ===== src/Mirror/Start.antt =====
-- What startMirror of cmd/mirror-main.go makes of a plan.
use mc.Base.{
  true, false, Option, none, some, List, [], ◌∷◌, ◌++◌, ◌≡◌, refl, ◌≢◌, All, All-append, arith, sym,
  subst, inl, inr, Option-cases,
}
use mc.Content.{Time, ClientContent}
use mc.Difference.Compare.{DiffMessage}
use mc.Find.Match.{Ages}
use mc.Mirror.Plan.{MirrorSetting, Urls, mirror_plan, orders, copy_order, remove_order}
use mc.Mirror.Job.{JobOptions, Job, pretend, copy, remove, Start, start_mirror, is_kept, job_of}

-- The ages of --older-than and --newer-than can be read.
pub record CanTell (o : JobOptions) (a : Ages) : Type 0 where
  pub older : (t : Time) → a.is_older t o.older_than ≢ none
  pub newer : (t : Time) → a.is_newer t o.newer_than ≢ none

abbrev HasTarget : Urls → Type 0
HasTarget u = u.error ≡ none → u.source_content ≢ none → u.target_content ≢ none

-- The messages of a plan that carry an error.
abbrev pub errors_of : List Urls → List Urls
errors_of [] = []
errors_of (u ∷ us) = elim u.error [ some e ↦ u ∷ errors_of us | none ↦ errors_of us ]

-- A job that stays within the options: a removal has --remove, and with --fake nothing is copied.
abbrev pub IsAllowed : JobOptions → Job → Type 0
IsAllowed o (pretend u) = o.plan.is_fake ≡ true
IsAllowed o (copy u c t) = (o.plan.is_fake ≡ false) × (u.source_content ≡ some c)
IsAllowed o (remove u t) = (o.plan.is_remove ≡ true) × (u.source_content ≡ none)

orders-HasTarget : (m : MirrorSetting) (d : DiffMessage) → All HasTarget (orders m d)
unfolding orders copy_order remove_order
orders-HasTarget m d = ground arith

plan-HasTarget : (m : MirrorSetting) (ds : List DiffMessage) → All HasTarget (mirror_plan m ds)
unfolding mirror_plan
plan-HasTarget m [] = tt
plan-HasTarget m (d ∷ ds) =
    All-append HasTarget (orders m d) (mirror_plan m ds) (orders-HasTarget m d)
      (plan-HasTarget m ds)

module _ (o : JobOptions) (a : Ages) where
  is_kept_told : CanTell o a → (s : Option ClientContent) → is_kept o a s ≢ none
  unfolding is_kept
  is_kept_told h none = ground arith
  is_kept_told h (some c) = ground (arith, h.older c.time, h.newer c.time)

  job_of_told : (u : Urls) → HasTarget u → u.error ≡ none → job_of o a u ≢ none
  unfolding job_of
  job_of_told u h e = ground (arith, h e)

  job_of-IsAllowed :
      (u : Urls) (jobs : List Job) → job_of o a u ≡ some jobs → All (IsAllowed o) jobs
  unfolding job_of
  job_of-IsAllowed u [] h = tt
  job_of-IsAllowed u (pretend v ∷ js) h = ground arith
  job_of-IsAllowed u (copy v c t ∷ js) h = ground arith
  job_of-IsAllowed u (remove v t ∷ js) h = ground arith

  -- The start of a plan runs through it, sends its errors, and queues what the options allow.
  record IsRun (us : List Urls) (s : Start) : Type 0 where
    completed : s.completed ≡ true
    sent : s.sent ≡ errors_of us
    queued : All (IsAllowed o) s.queued

  start_lem : CanTell o a → (us : List Urls) → All HasTarget us → IsRun us (start_mirror o a us)
  unfolding start_mirror
  start_lem h [] t = record { completed = refl; sent = refl; queued = tt }
  start_lem h (u ∷ us) (t, ts) =
      let r = start_lem h us ts in
      elim (Option-cases u.error) [
        | inr (x, e) ↦ record {
          completed = ground (arith, r.completed);
          sent = ground (arith, r.sent);
          queued = ground (arith, r.queued);
        }
        | inl e ↦ elim (Option-cases (is_kept o a u.source_content)) [
          | inl k ↦ absurd (is_kept_told h u.source_content k)
          | inr (false, k) ↦ record {
            completed = ground (arith, r.completed);
            sent = ground (arith, r.sent);
            queued = ground (arith, r.queued);
          }
          | inr (true, k) ↦ elim (Option-cases (job_of o a u)) [
            | inl j ↦ absurd (job_of_told u t e j)
            | inr (js, j) ↦ record {
              completed = ground (arith, r.completed);
              sent = ground (arith, r.sent);
              queued =
                  let q : (start_mirror o a (u ∷ us)).queued ≡ js ++ (start_mirror o a us).queued =
                    ground arith in
                  subst (All (IsAllowed o)) (sym q) (
                    All-append (IsAllowed o) js (start_mirror o a us).queued
                      (job_of-IsAllowed u js j) r.queued);
            }
          ]
        ]
      ]

-- Starting the plan of a mirror comes to its end whenever the ages can be read: every order to copy
-- has a target, so that the program does not end at one. The messages sent to the status channel are
-- the errors of the plan in their order, and the jobs queued are within the options: pretended ones
-- only with --fake, copies of their source only without it, and removals only with --remove.
pub start_mirror-Allowed :
    (o : JobOptions) (a : Ages) (m : MirrorSetting) (ds : List DiffMessage)
    → CanTell o a
    → ((start_mirror o a (mirror_plan m ds)).completed ≡ true)
      × ((start_mirror o a (mirror_plan m ds)).sent ≡ errors_of (mirror_plan m ds))
      × All (IsAllowed o) (start_mirror o a (mirror_plan m ds)).queued
start_mirror-Allowed o a m ds h =
    let r = start_lem o a h (mirror_plan m ds) (plan-HasTarget m ds) in
    (r.completed, r.sent, r.queued)
