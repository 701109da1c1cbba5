-- ===== src/Queue/Exclusive.antt =====
-- Claims exclude each other, and the count of claimable jobs foretells them.
use billcommons.Base.{
  ℕ, ◌≡◌, refl, sym, ◌∙◌, ap, subst, String, Bool, true, false, none, some, List, [], ◌∷◌, ◌&&◌,
  not, all, filter, ◌==◌, ltb, is_some, Option-cases, inl, inr, arith, length,
}
use billcommons.Queue.Jobs.{
  Job, Request, is_queued, is_eligible, oldest, put, claimed, claim_job, count_claimable,
}
use billcommons.Queue.Claims.{oldest_holds, claim_of, found_oldest, all-part}

-- No row with the id can be claimed.
abbrev taken : ℕ → Job → Bool
taken id j = not (j.id == id && is_queued j.status)

taken-claimed : (id : ℕ) (r : Request) (j : Job) → taken id (claimed r j) ≡ true
taken-claimed id r j = ground arith

all-put :
    (p : Job → Bool) (c : Job) (js : List Job)
    → p c ≡ true
    → all p js ≡ true
    → all p (put c js) ≡ true
unfolding put
all-put p c [] h a = refl
all-put p c (j ∷ js) h a = ground (arith, all-put p c js h)

taken-put : (r : Request) (j : Job) (js : List Job) → all (taken j.id) (put (claimed r j) js) ≡ true
unfolding put
taken-put r j [] = refl
taken-put r j (k ∷ js) = ground (arith, taken-put r j js)

-- Claims one after the other, of one worker or of several.
unfoldable pub claim_all : List Request → List Job → List Job × List Job
claim_all [] table = (table, [])
claim_all (r ∷ rs) table =
    let (table', c) = claim_job r table in
    let (table'', cs) = claim_all rs table' in (table'', elim c [ none ↦ cs | some job ↦ job ∷ cs ])

abbrev pub differs : ℕ → Job → Bool
differs id c = not (c.id == id)

-- Whether no id stands twice.
abbrev pub are_distinct : List Job → Bool
are_distinct [] = true
are_distinct (c ∷ cs) = all (differs c.id) cs && are_distinct cs

module _ (r : Request) (rs : List Request) (table : List Job) where
  claim_all-none :
      oldest (filter (is_eligible r) table) ≡ none
      → (claim_all (r ∷ rs) table).1 ≡ (claim_all rs table).1
  unfolding claim_all
  claim_all-none e =
      ap (λ p. elim p.1 [ none ↦ (claim_all rs p.0).1 | some job ↦ job ∷ (claim_all rs p.0).1 ])
        (claim_of r table none e)

  claim_all-some :
      (j : Job)
      → oldest (filter (is_eligible r) table) ≡ some j
      → (claim_all (r ∷ rs) table).1 ≡ claimed r j ∷ (claim_all rs (put (claimed r j) table)).1
  unfolding claim_all
  claim_all-some j e =
      ap (λ p. elim p.1 [ none ↦ (claim_all rs p.0).1 | some job ↦ job ∷ (claim_all rs p.0).1 ])
        (claim_of r table (some j) e)

taken_found :
    (id : ℕ) (r : Request) (table : List Job) (j : Job)
    → all (taken id) table ≡ true
    → oldest (filter (is_eligible r) table) ≡ some j
    → differs id (claimed r j) ≡ true
unfolding is_eligible
taken_found id r table j a e = ground (
  arith,
  oldest_holds (taken id) (filter (is_eligible r) table) j
      (all-part (is_eligible r) (taken id) table a) e,
  (found_oldest r table j e).0,
)

taken_stays :
    (id : ℕ) (rs : List Request) (table : List Job)
    → all (taken id) table ≡ true
    → all (differs id) (claim_all rs table).1 ≡ true
taken_stays id [] table a = unfold claim_all in refl
taken_stays id (r ∷ rs) table a = elim (Option-cases (oldest (filter (is_eligible r) table))) [
  | inl e ↦
      subst (λ cs. all (differs id) cs ≡ true) (sym (claim_all-none r rs table e))
        (taken_stays id rs table a)
  | inr (j, e) ↦
      subst (λ cs. all (differs id) cs ≡ true) (sym (claim_all-some r rs table j e))
        (ground (
          arith,
          taken_found id r table j a e,
          taken_stays id rs (put (claimed r j) table)
              (all-put (taken id) (claimed r j) table (taken-claimed id r j) a),
        ))
]

-- However the claims of workers follow each other, no job is claimed twice as long as none is
-- released.
pub claim_all-distinct :
    (rs : List Request) (table : List Job) → are_distinct (claim_all rs table).1 ≡ true
claim_all-distinct [] table = unfold claim_all in refl
claim_all-distinct (r ∷ rs) table = elim (Option-cases (oldest (filter (is_eligible r) table))) [
  | inl e ↦
      subst (λ cs. are_distinct cs ≡ true) (sym (claim_all-none r rs table e))
        (claim_all-distinct rs table)
  | inr (j, e) ↦
      subst (λ cs. are_distinct cs ≡ true) (sym (claim_all-some r rs table j e))
        (ground (
          arith,
          taken_stays j.id rs (put (claimed r j) table) (taken-put r j table),
          claim_all-distinct rs (put (claimed r j) table),
        ))
]

-- A claim of one kind while no row is held.
abbrev pub of_kind : String → String → ℕ → Request
of_kind worker kind now = record {
  worker_id = worker;
  kind = some kind;
  exclude_kinds = [];
  now = now;
  held = λ _. false;
}

count_eligible :
    (worker kind : String) (now : ℕ) (table : List Job)
    → length (filter (is_eligible (of_kind worker kind now)) table) ≡ count_claimable kind now table
unfolding is_eligible count_claimable
count_eligible worker kind now [] = refl
count_eligible worker kind now (j ∷ js) = ground (arith, count_eligible worker kind now js)

oldest_exists : (js : List Job) → is_some (oldest js) ≡ ltb 0 (length js)
unfolding oldest
oldest_exists [] = ground arith
oldest_exists (j ∷ js) = ground arith

claim_exists :
    (r : Request) (table : List Job)
    → is_some (claim_job r table).1 ≡ is_some (oldest (filter (is_eligible r) table))
claim_exists r table = elim (Option-cases (oldest (filter (is_eligible r) table))) [
  | inl e ↦ ap (λ p. is_some p.1) (claim_of r table none e) ∙ sym (ap is_some e)
  | inr (j, e) ↦ ap (λ p. is_some p.1) (claim_of r table (some j) e) ∙ sym (ap is_some e)
]

-- The count of claimable jobs of a kind is positive exactly if a claim of that kind succeeds, while
-- no other transaction holds a row.
pub count_claimable-claim_job :
    (worker kind : String) (now : ℕ) (table : List Job)
    → ltb 0 (count_claimable kind now table) ≡ is_some (claim_job (of_kind worker kind now) table).1
count_claimable-claim_job worker kind now table =
    (ap (ltb 0) (sym (count_eligible worker kind now table))
      ∙ sym (oldest_exists (filter (is_eligible (of_kind worker kind now)) table))
      ∙ sym (claim_exists (of_kind worker kind now) table))
