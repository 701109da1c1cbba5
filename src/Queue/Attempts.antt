-- ===== src/Queue/Attempts.antt =====
-- A job that keeps failing is given up after five attempts.
use billcommons.Base.{
  ℕ, suc, ◌+◌, ◌<◌, ◌≡◌, refl, sym, ◌∙◌, ap, true, false, List, [], ◌∷◌, false≢true, Bool-cases,
  inl, inr, leb, ltb, if◌then◌else◌, if_induction, arith, length,
}
use billcommons.Base.Text.{Text}
use billcommons.Queue.Jobs.{
  Job, JobStatus, Request, is_queued, claimed, fail_job, default_max_attempts,
  default_base_backoff_seconds,
}

-- Attempts that all fail: each claims the job, if it is queued, and fails it.
abbrev pub attempt_all : List (Request × Text × ℕ) → Job → Job
attempt_all [] j = j
attempt_all ((r, error, now) ∷ es) j = attempt_all es (
    if is_queued j.status
    then fail_job error default_max_attempts default_base_backoff_seconds now (claimed r j)
    else j)

status-fail_job :
    (error : Text) (most base now : ℕ) (j : Job)
    → (fail_job error most base now j).status
      ≡ (if leb most j.attempts then JobStatus.dead else JobStatus.queued)
unfolding fail_job
status-fail_job error most base now j = ground arith

attempts-fail_job :
    (error : Text) (most base now : ℕ) (j : Job)
    → (fail_job error most base now j).attempts ≡ j.attempts
unfolding fail_job
attempts-fail_job error most base now j = ground arith

dead_stays :
    (es : List (Request × Text × ℕ)) (j : Job)
    → j.status ≡ JobStatus.dead
    → (attempt_all es j).status ≡ JobStatus.dead
dead_stays [] j d = d
dead_stays ((r, error, now) ∷ es) j d =
    if_induction (λ x. (attempt_all es x).status ≡ JobStatus.dead) (is_queued j.status)
      (λ yes. absurd (false≢true (sym (ap is_queued d) ∙ yes))) λ _. dead_stays es j d

over :
    (a n : ℕ)
    → leb default_max_attempts (a + 1) ≡ true
    → (if ltb (a + suc n) default_max_attempts then JobStatus.queued else JobStatus.dead)
      ≡ JobStatus.dead
over a n h = ground arith

under : (a : ℕ) → leb default_max_attempts (a + 1) ≡ false → a + 1 < default_max_attempts
under a h = ground arith

-- A queued job whose attempts all fail is queued again until its fifth attempt, and dead after it.
pub attempt_all-status :
    (es : List (Request × Text × ℕ)) (j : Job)
    → j.status ≡ JobStatus.queued
    → j.attempts < default_max_attempts
    → (attempt_all es j).status ≡ (
        if ltb (j.attempts + length es) default_max_attempts
        then JobStatus.queued
        else JobStatus.dead)
attempt_all-status [] j q few = ground (arith, q)
attempt_all-status ((r, error, now) ∷ es) j q few =
    let failed =
      fail_job error default_max_attempts default_base_backoff_seconds now (claimed r j) in
    let status =
      status-fail_job error default_max_attempts default_base_backoff_seconds now (claimed r j) in
    let attempts =
      attempts-fail_job error default_max_attempts default_base_backoff_seconds now (claimed r j) in
    if_induction
      (λ x. (attempt_all es x).status ≡ (
        if ltb (j.attempts + suc (length es)) default_max_attempts
        then JobStatus.queued
        else JobStatus.dead))
      (is_queued j.status)
      (λ _. elim (Bool-cases (leb default_max_attempts (j.attempts + 1))) [
        | inl full ↦
            dead_stays es failed (status ∙ rw full refl) ∙ sym (over j.attempts (length es) full)
        | inr left ↦
            attempt_all-status es failed (status ∙ rw left refl)
              (omega (arith, attempts, under j.attempts left))
            ∙ ap (λ n. if ltb n default_max_attempts then JobStatus.queued else JobStatus.dead)
                (omega (arith, attempts))
      ])
      λ off. absurd (false≢true (sym off ∙ ap is_queued q))
