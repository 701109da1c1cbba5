-- ===== src/Queue/Examples.antt =====
-- The queue's theorems at concrete tables.
use billcommons.Base.{
  ℕ, ◌+◌, ◌≡◌, refl, true, false, none, some, List, [], ◌∷◌, all, ltb, arith, if◌then◌else◌,
}
use billcommons.Base.Text.{Text}
use billcommons.Queue.Jobs.{
  Job, JobStatus, Request, is_eligible, claimed, claim_job, enqueue, oldest, default_max_attempts,
}
use billcommons.Queue.Exclusive.{claim_all, are_distinct, claim_all-distinct}
use billcommons.Queue.Lifecycle.{Step, Reach, is_sound, Reach-sound}
use billcommons.Queue.Attempts.{attempt_all, attempt_all-status}

abbrev waiting : ℕ → ℕ → Job
waiting id run_after = record {
  id = id;
  kind = "fetch_text";
  payload = [];
  created_at = 0;
  status = JobStatus.queued;
  run_after = run_after;
  attempts = 0;
  locked_by = none;
  locked_at = none;
  last_error = none;
}

abbrev two_jobs : List Job
two_jobs = waiting 1 50 ∷ waiting 2 40 ∷ []

abbrev ask : Request
ask = record {
  worker_id = "w";
  kind = none;
  exclude_kinds = "api_sync" ∷ [];
  now = 60;
  held = λ _. false;
}

claims_second : (claim_job ask two_jobs).1 ≡ some (claimed ask (waiting 2 40))
unfolding claim_job is_eligible oldest
claims_second = refl

claim_all-distinct_example : are_distinct (claim_all (ask ∷ ask ∷ ask ∷ []) two_jobs).1 ≡ true
claim_all-distinct_example = claim_all-distinct (ask ∷ ask ∷ ask ∷ []) two_jobs

abbrev one : List Job
one = enqueue 7 "fetch_text" [] none 60 []

abbrev one_claimed : List Job
one_claimed = (claim_job ask one).0

reached : Reach one_claimed
reached =
    Reach.after (Reach.after Reach.start (Step.enqueues 7 "fetch_text" [] none 60 refl))
      (Step.claims ask refl)

Reach-sound_example : all is_sound one_claimed ≡ true
Reach-sound_example = Reach-sound one_claimed reached

abbrev failure : ℕ → Request × Text × ℕ
failure t = (ask, 101 ∷ [], t)

attempt_all-status_example :
    (attempt_all
      (failure 100 ∷ failure 200 ∷ failure 400 ∷ failure 800 ∷ failure 1600 ∷ [])
      (waiting 1 50)).status
    ≡ (if ltb (0 + 5) default_max_attempts then JobStatus.queued else JobStatus.dead)
attempt_all-status_example =
    attempt_all-status (failure 100 ∷ failure 200 ∷ failure 400 ∷ failure 800 ∷ failure 1600 ∷ [])
      (waiting 1 50) refl (omega arith)
