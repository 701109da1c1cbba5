-- ===== src/Schedule/Cadence.antt =====
-- Two synchronisations of one state are at least half an hour apart.
use billcommons.Base.{
  ℕ, ◌+◌, ◌*◌, ◌-◌, ◌≤◌, ◌<◌, ◌≡◌, refl, ◌∙◌, Bool, true, false, Option, none, some, List, [], ◌∷◌,
  ◌++◌, ◌&&◌, ◌||◌, not, any, all, leb, arith,
}
use billcommons.Base.Dict
use billcommons.Base.Text.{Text, text_eq_refl, is_absent, absent_of}
use billcommons.Queue.Jobs.{Job, PayloadValue, enqueue}
use billcommons.Schedule.{
  SessionRow, Jurisdiction, CadenceTier, ScheduleDecision, minute, cadence_minutes, is_due, syncs,
  later, last_enqueued_at, first_session, cadence_tier, decision_then, plan_schedule, enqueue_due,
  run_schedule_pass,
}

-- A synchronisation was enqueued at the time or after it.
abbrev is_since : ℕ → Option ℕ → Bool
is_since t none = false
is_since t (some u) = leb t u

-- The second table knows of no earlier last synchronisation than the first.
abbrev pub is_no_earlier : Option ℕ → Option ℕ → Bool
is_no_earlier none v = true
is_no_earlier (some t) none = false
is_no_earlier (some t) (some u) = leb t u

since_later : (t a : ℕ) (o : Option ℕ) → is_since t (later a o) ≡ (leb t a || is_since t o)
since_later t a none = ground arith
since_later t a (some u) = ground arith

-- The row is such a synchronisation.
abbrev is_recent : ℕ → Text → Job → Bool
is_recent t state j = syncs state j && leb t j.created_at

since-any :
    (t : ℕ) (state : Text) (jobs : List Job)
    → is_since t (last_enqueued_at state jobs) ≡ any (is_recent t state) jobs
unfolding last_enqueued_at
since-any t state [] = refl
since-any t state (j ∷ jobs) =
    ground (arith, since_later t j.created_at (last_enqueued_at state jobs), since-any t state jobs)

any-append :
    (p : Job → Bool) (jobs rows : List Job) → any p (jobs ++ rows) ≡ (any p jobs || any p rows)
any-append p [] rows = refl
any-append p (j ∷ jobs) rows = ground (arith, any-append p jobs rows)

abbrev add_sync : ℕ → ℕ → Text → List Job → List Job
add_sync id now abbr jobs =
    enqueue id "api_sync" (("state", PayloadValue.text abbr) ∷ []) none now jobs

recent_added :
    (state : Text) (id now : ℕ) (jobs : List Job)
    → any (is_recent now state) (add_sync id now state jobs) ≡ true
unfolding enqueue Dict.get
recent_added state id now jobs =
    any-append (is_recent now state) jobs _ ∙ ground (arith, text_eq_refl state)

recent_kept :
    (p : Job → Bool) (abbr : Text) (id now : ℕ) (jobs : List Job)
    → any p jobs ≡ true
    → any p (add_sync id now abbr jobs) ≡ true
unfolding enqueue
recent_kept p abbr id now jobs h = any-append p jobs _ ∙ ground (arith, h)

recent_through :
    (p : Job → Bool) (id now : ℕ) (ds : List ScheduleDecision) (jobs : List Job)
    → any p jobs ≡ true
    → any p (enqueue_due id now ds jobs).0 ≡ true
unfolding enqueue_due
recent_through p id now [] jobs h = h
recent_through p id now (d ∷ ds) jobs h = ground (
  arith,
  recent_through p (id + 1) now ds (add_sync id now d.jurisdiction_abbr jobs)
      (recent_kept p d.jurisdiction_abbr id now jobs h),
  recent_through p id now ds jobs h,
)

-- Whatever a pass enqueues, it is recorded with the time of the pass.
recorded :
    (id now : ℕ) (ds : List ScheduleDecision) (jobs : List Job)
    → all (λ a. any (is_recent now a) (enqueue_due id now ds jobs).0) (enqueue_due id now ds jobs).1
      ≡ true
unfolding enqueue_due
recorded id now [] jobs = refl
recorded id now (d ∷ ds) jobs = ground (
  arith,
  recent_through (is_recent now d.jurisdiction_abbr) (id + 1) now ds
      (add_sync id now d.jurisdiction_abbr jobs) (recent_added d.jurisdiction_abbr id now jobs),
  recorded (id + 1) now ds (add_sync id now d.jurisdiction_abbr jobs),
  recorded id now ds jobs,
)

abbrev due_after : ℕ → Option ℕ → Bool
due_after now none = true
due_after now (some t) = leb (30 * minute) (now - t)

cadence_minutes-least : (tier : CadenceTier) → 30 ≤ cadence_minutes tier
unfolding cadence_minutes
cadence_minutes-least CadenceTier.active = omega arith
cadence_minutes-least CadenceTier.year_round = omega arith
cadence_minutes-least CadenceTier.recently_adjourned = omega arith
cadence_minutes-least CadenceTier.dormant = omega arith

is_due-after :
    (last : Option ℕ) (tier : CadenceTier) (now : ℕ)
    → is_due last tier now ≡ true
    → due_after now last ≡ true
unfolding is_due
is_due-after none tier now h = refl
is_due-after (some t) tier now h = ground (arith, h, cadence_minutes-least tier)

-- A decision of the plan: what is due has not been enqueued for half an hour.
abbrev is_spaced : ℕ → List Job → ScheduleDecision → Bool
is_spaced now jobs d = not d.due || due_after now (last_enqueued_at d.jurisdiction_abbr jobs)

spaced_then :
    (now : ℕ) (jobs : List Job) (abbr : Text) (o : Option SessionRow) (ds : List ScheduleDecision)
    → all (is_spaced now jobs) ds ≡ true
    → all (is_spaced now jobs) (decision_then now jobs abbr o ds) ≡ true
spaced_then now jobs abbr none ds h = h
spaced_then now jobs abbr (some s) ds h =
    ground (
      arith,
      h,
      is_due-after (last_enqueued_at abbr jobs) (cadence_tier s.active s.end_date now) now,
    )

spaced_plan :
    (now : ℕ) (jobs : List Job) (js : List Jurisdiction)
    → all (is_spaced now jobs) (plan_schedule now jobs js) ≡ true
unfolding plan_schedule
spaced_plan now jobs [] = refl
spaced_plan now jobs (j ∷ js) =
    spaced_then now jobs j.abbreviation (first_session j.sessions) _ (spaced_plan now jobs js)

enqueued_due :
    (p : Text → Bool) (id now : ℕ) (ds : List ScheduleDecision) (jobs : List Job)
    → all (λ (d : ScheduleDecision). not d.due || p d.jurisdiction_abbr) ds ≡ true
    → all p (enqueue_due id now ds jobs).1 ≡ true
unfolding enqueue_due
enqueued_due p id now [] jobs h = refl
enqueued_due p id now (d ∷ ds) jobs h = ground (
  arith,
  h,
  enqueued_due p (id + 1) now ds (add_sync id now d.jurisdiction_abbr jobs),
  enqueued_due p id now ds jobs,
)

too_soon :
    (now now' : ℕ) (u v : Option ℕ)
    → is_since now u ≡ true
    → is_no_earlier u v ≡ true
    → now' < now + 30 * minute
    → due_after now' v ≡ false
too_soon now now' none v h k lt = ground (arith, h)
too_soon now now' (some t) none h k lt = ground (arith, k)
too_soon now now' (some t) (some u) h k lt = ground (arith, h, k)

module _ (now now' : ℕ) (before after : List Job) (texts : List Text)
    (kept : (s : Text)
      → is_no_earlier (last_enqueued_at s before) (last_enqueued_at s after) ≡ true)
    (soon : now' < now + 30 * minute)
    (spaced : all (λ a. due_after now' (last_enqueued_at a after)) texts ≡ true) where
  absent_again :
      (abbrs : List Text)
      → all (λ a. any (is_recent now a) before) abbrs ≡ true
      → all (is_absent texts) abbrs ≡ true
  absent_again [] h = refl
  absent_again (a ∷ abbrs) h = ground (
    arith,
    absent_of (λ b. due_after now' (last_enqueued_at b after)) a texts
        (too_soon now now' (last_enqueued_at a before) (last_enqueued_at a after)
          (since-any now a before ∙ ground (arith, h)) (kept a) soon)
        spaced,
    absent_again abbrs (ground (arith, h)),
  )

-- No state that a pass enqueues is enqueued again within half an hour, unless its synchronisation
-- has died by then: the table of the second pass knows of no earlier last synchronisation of any
-- state than the one that the first pass leaves.
pub run_schedule_pass-spaced :
    (id id' now now' : ℕ) (js js' : List Jurisdiction) (jobs jobs' : List Job)
    → ((s : Text)
        → is_no_earlier
            (last_enqueued_at s (run_schedule_pass true id now js jobs).0)
            (last_enqueued_at s jobs')
          ≡ true)
    → now' < now + 30 * minute
    → all
        (is_absent (run_schedule_pass true id' now' js' jobs').1)
        (run_schedule_pass true id now js jobs).1
      ≡ true
unfolding run_schedule_pass
run_schedule_pass-spaced id id' now now' js js' jobs jobs' kept soon =
    let first = enqueue_due id now (plan_schedule now jobs js) jobs in
    absent_again now now' first.0 jobs' _ kept soon
      (enqueued_due (λ a. due_after now' (last_enqueued_at a jobs')) id' now'
        (plan_schedule now' jobs' js') jobs' (spaced_plan now' jobs' js'))
      first.1 (recorded id now (plan_schedule now jobs js) jobs)
