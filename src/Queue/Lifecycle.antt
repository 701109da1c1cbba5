-- ===== src/Queue/Lifecycle.antt =====
-- The life of a job: the steps that the workers take, and what holds of every table they reach.
use billcommons.Base.{
  ℕ, ◌≤◌, ◌<◌, ◌≡◌, refl, sym, subst, String, Bool, true, Option, none, some, List, [], ◌∷◌, ◌&&◌,
  not, all, all-append, filter, leb, ltb, if_induction, is_some, arith, Option-cases, inl, inr, ◌⊎◌,
}
use billcommons.Base.Text.{Text}
use billcommons.Queue.Jobs.{
  Job, JobStatus, Payload, Request, is_queued, is_running, is_eligible, oldest, put, enqueue,
  claimed, claim_job, complete_job, fail_job, dead_letter_job, default_max_attempts,
  default_base_backoff_seconds,
}
use billcommons.Queue.Claims.{oldest_holds, claim_of, found_oldest, all-part}

-- The row is one of the table.
abbrev pub In : Job → List Job → Type 0
In c [] = ⊥
In c (j ∷ js) = (j ≡ c) ⊎ In c js

-- What a worker does to the table in one transaction. It finishes only jobs that are running.
pub data Step (t t' : List Job) : Type 0 where
  enqueues :
      (id : ℕ) (kind : String) (payload : Payload) (run_after : Option ℕ) (now : ℕ)
      → t' ≡ enqueue id kind payload run_after now t
      → Step t t'
  claims : (r : Request) → t' ≡ (claim_job r t).0 → Step t t'
  completes :
      (c : Job) → In c t → is_running c.status ≡ true → t' ≡ put (complete_job c) t → Step t t'
  fails :
      (c : Job) (error : Text) (now : ℕ)
      → In c t
      → is_running c.status ≡ true
      → t' ≡ put (fail_job error default_max_attempts default_base_backoff_seconds now c) t
      → Step t t'
  dead_letters :
      (c : Job) (error : Text)
      → In c t
      → is_running c.status ≡ true
      → t' ≡ put (dead_letter_job error c) t
      → Step t t'

pub data Reach : List Job → Type 0 where
  start : Reach []
  after : {t t' : List Job} → Reach t → Step t t' → Reach t'

abbrev is_locked : Job → Bool
is_locked j = is_some j.locked_by && is_some j.locked_at

abbrev is_free : Job → Bool
is_free j = not (is_some j.locked_by) && not (is_some j.locked_at)

-- Exactly a running job is locked, and no job is tried more than five times.
abbrev pub sound_at : JobStatus → Job → Bool
sound_at JobStatus.queued j = is_free j && ltb j.attempts 5
sound_at JobStatus.running j = is_locked j && (leb 1 j.attempts && leb j.attempts 5)
sound_at JobStatus.done j = is_free j && leb j.attempts 5
sound_at JobStatus.dead j = is_free j && leb j.attempts 5

abbrev pub is_sound : Job → Bool
is_sound j = sound_at j.status j

queued_attempts :
    (s : JobStatus) (j : Job) → is_queued s ≡ true → sound_at s j ≡ true → j.attempts < 5
queued_attempts JobStatus.queued j q h = ground arith
queued_attempts JobStatus.running j q h = ground arith
queued_attempts JobStatus.done j q h = ground arith
queued_attempts JobStatus.dead j q h = ground arith

running_attempts :
    (s : JobStatus) (j : Job) → is_running s ≡ true → sound_at s j ≡ true → j.attempts ≤ 5
running_attempts JobStatus.queued j q h = ground arith
running_attempts JobStatus.running j q h = ground arith
running_attempts JobStatus.done j q h = ground arith
running_attempts JobStatus.dead j q h = ground arith

leb-true : {a b : ℕ} → a ≤ b → leb a b ≡ true
leb-true h = ground (arith, h)

all-In : (p : Job → Bool) (c : Job) (js : List Job) → all p js ≡ true → In c js → p c ≡ true
all-In p c [] a at = absurd at
all-In p c (j ∷ js) a (inl same) = subst (λ x. p x ≡ true) same (ground (arith, a))
all-In p c (j ∷ js) a (inr later) = all-In p c js (ground (arith, a)) later

all-put :
    (p : Job → Bool) (c : Job) (js : List Job)
    → p c ≡ true
    → all p js ≡ true
    → all p (put c js) ≡ true
unfolding put
all-put p c [] h a = refl
all-put p c (j ∷ js) h a = ground (arith, all-put p c js h)

sound_claimed :
    (r : Request) (j : Job)
    → is_queued j.status ≡ true
    → is_sound j ≡ true
    → is_sound (claimed r j) ≡ true
sound_claimed r j q h = ground (arith, queued_attempts j.status j q h)

sound_complete :
    (j : Job) → is_running j.status ≡ true → is_sound j ≡ true → is_sound (complete_job j) ≡ true
unfolding complete_job
sound_complete j q h = ground (arith, running_attempts j.status j q h)

sound_fail :
    (e : Text) (now : ℕ) (j : Job)
    → is_running j.status ≡ true
    → is_sound j ≡ true
    → is_sound (fail_job e default_max_attempts default_base_backoff_seconds now j) ≡ true
unfolding fail_job
sound_fail e now j q h =
    if_induction (λ x. is_sound x ≡ true) (leb default_max_attempts j.attempts)
      (λ _. leb-true (running_attempts j.status j q h)) λ left. ground (arith, left)

sound_dead_letter :
    (e : Text) (j : Job)
    → is_running j.status ≡ true
    → is_sound j ≡ true
    → is_sound (dead_letter_job e j) ≡ true
unfolding dead_letter_job
sound_dead_letter e j q h = ground (arith, running_attempts j.status j q h)

sound-enqueue :
    (id : ℕ) (kind : String) (payload : Payload) (run_after : Option ℕ) (now : ℕ) (t : List Job)
    → all is_sound t ≡ true
    → all is_sound (enqueue id kind payload run_after now t) ≡ true
unfolding enqueue
sound-enqueue id kind payload run_after now t a = all-append is_sound t _ a refl

queued_of : (r : Request) (j : Job) → is_eligible r j ≡ true → is_queued j.status ≡ true
unfolding is_eligible
queued_of r j h = ground (arith, h)

sound-claim_job :
    (r : Request) (t : List Job) → all is_sound t ≡ true → all is_sound (claim_job r t).0 ≡ true
sound-claim_job r t a = elim (Option-cases (oldest (filter (is_eligible r) t))) [
  | inl e ↦ subst (λ p. all is_sound p.0 ≡ true) (sym (claim_of r t none e)) a
  | inr (j, e) ↦
      subst (λ p. all is_sound p.0 ≡ true) (sym (claim_of r t (some j) e))
        (all-put is_sound (claimed r j) t
          (sound_claimed r j (queued_of r j (found_oldest r t j e).0) (
            oldest_holds is_sound (filter (is_eligible r) t) j
              (all-part (is_eligible r) is_sound t a) e))
          a)
]

sound-Step : (t t' : List Job) → Step t t' → all is_sound t ≡ true → all is_sound t' ≡ true
sound-Step t t' (enqueues id kind payload run_after now e) a =
    subst (λ x. all is_sound x ≡ true) (sym e) (sound-enqueue id kind payload run_after now t a)
sound-Step t t' (claims r e) a = subst (λ x. all is_sound x ≡ true) (sym e) (sound-claim_job r t a)
sound-Step t t' (completes c at q e) a =
    subst (λ x. all is_sound x ≡ true) (sym e)
      (all-put is_sound (complete_job c) t (sound_complete c q (all-In is_sound c t a at)) a)
sound-Step t t' (fails c error now at q e) a =
    subst (λ x. all is_sound x ≡ true) (sym e)
      (all-put is_sound _ t (sound_fail error now c q (all-In is_sound c t a at)) a)
sound-Step t t' (dead_letters c error at q e) a =
    subst (λ x. all is_sound x ≡ true) (sym e)
      (all-put is_sound (dead_letter_job error c) t
        (sound_dead_letter error c q (all-In is_sound c t a at)) a)

-- In every table that the workers reach exactly the running jobs are locked, a queued job was tried
-- fewer than five times, and no job was tried more often.
pub Reach-sound : (t : List Job) → Reach t → all is_sound t ≡ true
Reach-sound t start = refl
Reach-sound t' (after {t} before step) = sound-Step t t' step (Reach-sound t before)
