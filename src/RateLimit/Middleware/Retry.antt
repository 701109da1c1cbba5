-- ===== src/RateLimit/Middleware/Retry.antt =====
-- The Retry-After of a 429 is long enough for every bucket that refused.
use billcommons.Base.{
  ℕ, ◌+◌, ◌*◌, ◌≤◌, ◌<◌, String, ◌≡◌, ◌≢◌, refl, Bool, true, false, none, List, [], ◌∷◌, arith, all,
  ◌&&◌, filter, Bool-cases, inl, inr,
}
use billcommons.RateLimit.Counter.{Counter, Verdict, verdict, peek, ticks_per_second}
use billcommons.RateLimit.Counter.Verdicts.{existing-peek}
use billcommons.RateLimit.Counter.Charges.{existing_lem, peek-SameLimits, peek-IsUnique}
use billcommons.RateLimit.Counter.Invariant.{IsValid}
use billcommons.RateLimit.Counter.Retry.{spent, peek-allowed, retry_after_exact}
use billcommons.RateLimit.Middleware.{
  Limits, Slot, Keys, BucketResult, Headers, default_ip, heavy_ip, default_subnet, heavy_subnet,
  refused, counter_of, put_counter, key_of, check_all, ask_all, reply_passed, is_failed, slots_for,
  retry_after_and_binding, bind_failed, longest_reset,
}
use billcommons.RateLimit.Middleware.Laws.{Forward, AllUnique, peeked, refused-peeked}
use billcommons.RateLimit.Middleware.Commit.{is_allowed}

spent_antitone : (t t' : ℕ) (key : String) (c : Counter) → t ≤ t' → spent t' key c ≤ spent t key c
spent_antitone t t' key c le = ground (arith, existing_lem t key c, existing_lem t' key c)

peek-reset_in :
    (now : ℕ) (key : String) (c : Counter)
    → (peek now key c).1.allowed ≡ false
    → (peek now key c).1.reset_in ≡ (peek now key c).1.retry_after
unfolding peek verdict
peek-reset_in now key c h = ground arith

-- A bucket that was peeked at admits at every later time that is a Retry-After away.
admits_later :
    (now t n : ℕ) (key : String) (c : Counter)
    → IsValid now c
    → 0 < c.limit
    → now + n * ticks_per_second ≤ t
    → ((peek now key c).1.allowed ≡ false → (peek now key c).1.retry_after ≤ n)
    → (peek t key (peek now key c).0).1.allowed ≡ true
admits_later now t n key c v pos le enough =
    let c' = (peek now key c).0 in
    let u' = peek-IsUnique now key c v.unique in
    elim (Bool-cases (peek now key c).1.allowed) [
      | inl ok ↦ ground (
        arith,
        peek-allowed now key c v.unique,
        peek-allowed t key c' u',
        existing-peek {now = now} {t = t} (omega arith) key c v.unique key,
        spent_antitone now t key c,
        peek-SameLimits now key c,
      )
      | inr bad ↦ ground (
        arith,
        enough bad,
        retry_after_exact now key c v pos bad n,
        peek-allowed t key c' u',
        peek-allowed (now + n * ticks_per_second) key c' u',
        spent_antitone (now + n * ticks_per_second) t key c',
      )
    ]

-- The counters are valid at the time `now`, and each has some limit.
pub record IsReady (now : ℕ) (c : Counter) : Type 0 where
  pub valid : IsValid now c
  pub positive : 0 < c.limit

abbrev pub AllReady : ℕ → Limits → Type 0
AllReady now l = (s : Slot) → IsReady now (counter_of s l)

all_allowed-none :
    (rs : List BucketResult) → all is_allowed rs ≡ true → (retry_after_and_binding rs).1 ≡ none
unfolding retry_after_and_binding
all_allowed-none [] h = refl
all_allowed-none (r ∷ rs) h = ground (arith, all_allowed-none rs)

refused-retry_after :
    (clock : ℕ → ℕ) (keys : Keys) (heavy : Bool) (l : Limits) (n : ℕ) (hd : Headers)
    → (check_all clock keys heavy l).1 ≡ refused n hd
    → (retry_after_and_binding (ask_all peek clock 0 keys (slots_for heavy) l).1).0 ≡ n
unfolding check_all reply_passed
refused-retry_after clock keys heavy l n hd h = ground arith

all_allowed_not_refused :
    (clock : ℕ → ℕ) (keys : Keys) (heavy : Bool) (l : Limits)
    → all is_allowed (ask_all peek clock 0 keys (slots_for heavy) l).1 ≡ true
    → (m : ℕ) (hd : Headers) → (check_all clock keys heavy l).1 ≢ refused m hd
unfolding check_all reply_passed
all_allowed_not_refused clock keys heavy l h m hd r =
    ground (arith, all_allowed-none (ask_all peek clock 0 keys (slots_for heavy) l).1)

IsValid-later : {now t : ℕ} (c : Counter) → now ≤ t → IsValid now c → IsValid t c
IsValid-later c le v = record {
  unique = v.unique;
  bounded = v.bounded;
  started = λ k b h. omega (arith, v.started k b h);
}

failing_reset : List BucketResult → ℕ
failing_reset rs = longest_reset (filter is_failed rs)

retry_after_lem : (rs : List BucketResult) → (retry_after_and_binding rs).0 ≡ failing_reset rs
unfolding retry_after_and_binding failing_reset
retry_after_lem rs = go (filter is_failed rs)
  where
    go : (fs : List BucketResult) → (bind_failed fs).0 ≡ longest_reset fs
    go [] = refl
    go (r ∷ fs) = refl

abbrev AllWithin : ℕ → List BucketResult → Type 0
AllWithin n [] = Unit
AllWithin n (r ∷ rs) = (r.answer.allowed ≡ false → r.answer.reset_in ≤ n) × AllWithin n rs

failing_reset-AllWithin : (n : ℕ) (rs : List BucketResult) → failing_reset rs ≤ n → AllWithin n rs
unfolding failing_reset
failing_reset-AllWithin n [] h = tt
failing_reset-AllWithin n (r ∷ rs) h =
    (λ bad. ground arith, failing_reset-AllWithin n rs (ground arith))

both : {a b : Bool} → a ≡ true → b ≡ true → (a && b) ≡ true
both p q = ground arith

module _ (clock clock' : ℕ → ℕ) (fwd : Forward clock) (fwd' : Forward clock') (keys : Keys)
    (l : Limits) (ready : AllReady (clock 0) l) (n : ℕ)
    (waited : clock 3 + n * ticks_per_second ≤ clock' 0) where
  abbrev first_answer : ℕ → Slot → Verdict
  first_answer i s = (peek (clock i) (key_of s keys) (counter_of s l)).1

  second_allowed :
      (i : ℕ) (s : Slot)
      → i ≤ 3
      → ((first_answer i s).allowed ≡ false → (first_answer i s).reset_in ≤ n)
      → (peek
          (clock' i)
          (key_of s keys)
          (peek (clock i) (key_of s keys) (counter_of s l)).0).1.allowed
        ≡ true
  second_allowed i s le enough =
      let key = key_of s keys in
      let c = counter_of s l in
      admits_later (clock i) (clock' i) n key c
        (IsValid-later {now = clock 0} {t = clock i} c (fwd 0 i (omega arith)) (ready s).valid)
        (ready s).positive (omega (arith, fwd i 3 le, fwd' 0 i (omega arith)))
        (λ bad. omega (arith, enough bad, peek-reset_in (clock i) key c bad))

  all_second_allowed :
      (heavy : Bool)
      → failing_reset (ask_all peek clock 0 keys (slots_for heavy) l).1 ≤ n
      → all is_allowed (ask_all peek clock' 0 keys (slots_for heavy) (peeked clock keys heavy l)).1
        ≡ true
  unfolding ask_all counter_of put_counter
  all_second_allowed true h =
      let w = failing_reset-AllWithin n (ask_all peek clock 0 keys (slots_for true) l).1 h in
      both (second_allowed 0 default_ip (omega arith) w.0) (
        both (second_allowed 1 heavy_ip (omega arith) w.1.0) (
          both (second_allowed 2 default_subnet (omega arith) w.1.1.0)
            (both (second_allowed 3 heavy_subnet (omega arith) w.1.1.1.0) refl)))
  all_second_allowed false h =
      let w = failing_reset-AllWithin n (ask_all peek clock 0 keys (slots_for false) l).1 h in
      both (second_allowed 0 default_ip (omega arith) w.0)
        (both (second_allowed 1 default_subnet (omega arith) w.1.0) refl)

  -- After a 429 the same caller is not refused again if it waits for the advertised Retry-After and
  -- no other request comes between, the counters being valid with positive limits.
  pub retry_not_refused :
      (heavy : Bool) (hd : Headers)
      → (check_all clock keys heavy l).1 ≡ refused n hd
      → (m : ℕ) (hd' : Headers)
      → (check_all clock' keys heavy (check_all clock keys heavy l).0).1 ≢ refused m hd'
  retry_not_refused heavy hd h m hd' again =
      let u : AllUnique l = λ s. (ready s).valid.unique in
      let enough = all_second_allowed heavy (
        omega (
          arith,
          refused-retry_after clock keys heavy l n hd h,
          retry_after_lem (ask_all peek clock 0 keys (slots_for heavy) l).1,
        )) in
      all_allowed_not_refused clock' keys heavy (peeked clock keys heavy l) enough m hd'
        (rw (refused-peeked clock fwd keys heavy l u n hd h) at again)
