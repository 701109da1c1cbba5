-- ===== src/Queue/Claims.antt =====
-- What `claim_job` returns, alone and in a sequence of claims.
use billcommons.Base.{
  ℕ, ◌≤◌, ◌≡◌, refl, sym, ◌∙◌, ap, subst, Bool, true, Option, none, some, List, [], ◌∷◌, ◌||◌, not,
  all, filter, leb, ltb, Option-cases, Bool-cases, inl, inr, ◌⊎◌, arith,
}
use billcommons.Queue.Jobs.{Job, Request, is_eligible, sooner, oldest, put, claimed, claim_job}

none≢some : {j : Job} → none ≡ some j → ⊥
none≢some h = cc

some_inj : {a b : Job} → some a ≡ some b → a ≡ b
some_inj h = ground (arith, h)

-- Nothing in the option is due before t.
abbrev NotBefore : ℕ → Option Job → Type 0
NotBefore t none = Unit
NotBefore t (some m) = t ≤ m.run_after

sooner_cases :
    (k : Job) (o : Option Job) (j : Job) → some (sooner k o) ≡ some j → (k ≡ j) ⊎ (o ≡ some j)
sooner_cases k none j h = inl (ground (arith, h))
sooner_cases k (some m) j h = elim (Bool-cases (ltb m.run_after k.run_after)) [
  | inl earlier ↦ inr (ground (arith, h, earlier))
  | inr later ↦ inl (ground (arith, h, later))
]

-- What holds of every row holds of the oldest.
pub oldest_holds :
    (p : Job → Bool) (js : List Job) (j : Job) → all p js ≡ true → oldest js ≡ some j → p j ≡ true
unfolding oldest
oldest_holds p [] j a h = ground arith
oldest_holds p (k ∷ js) j a h = elim (sooner_cases k (oldest js) j h) [
  | inl same ↦ subst (λ x. p x ≡ true) same (ground (arith, a))
  | inr later ↦ oldest_holds p js j (ground (arith, a)) later
]

NotBefore-sooner :
    (t : ℕ) (k : Job) (o : Option Job)
    → NotBefore t (some (sooner k o))
    → (t ≤ k.run_after) × NotBefore t o
NotBefore-sooner t k none h = (h, tt)
NotBefore-sooner t k (some m) h = ground arith

NotBefore-oldest :
    (t : ℕ) (js : List Job) → NotBefore t (oldest js) → all (λ k. leb t k.run_after) js ≡ true
unfolding oldest
NotBefore-oldest t [] h = refl
NotBefore-oldest t (k ∷ js) h =
    let each = NotBefore-sooner t k (oldest js) h in
    ground (arith, each.0, NotBefore-oldest t js each.1)

all-filter : (p : Job → Bool) (js : List Job) → all p (filter p js) ≡ true
all-filter p [] = refl
all-filter p (j ∷ js) = ground (arith, all-filter p js)

pub all-part : (p q : Job → Bool) (js : List Job) → all q js ≡ true → all q (filter p js) ≡ true
all-part p q [] h = refl
all-part p q (j ∷ js) h = ground (arith, all-part p q js)

all_unless :
    (p q : Job → Bool) (js : List Job)
    → all q (filter p js) ≡ true
    → all (λ k. not (p k) || q k) js ≡ true
all_unless p q [] h = refl
all_unless p q (j ∷ js) h = ground (arith, all_unless p q js)

pub claim_of :
    (r : Request) (table : List Job) (o : Option Job)
    → oldest (filter (is_eligible r) table) ≡ o
    → claim_job r table ≡ (elim o [
      | none ↦ (table, none)
      | some job ↦ (put (claimed r job) table, some (claimed r job))
    ])
unfolding claim_job
claim_of r table o e =
    ap
      (λ x. elim x [
        | none ↦ (table, none)
        | some job ↦ (put (claimed r job) table, some (claimed r job))
      ])
      e

pub found_oldest :
    (r : Request) (table : List Job) (j : Job)
    → oldest (filter (is_eligible r) table) ≡ some j
    → (is_eligible r j ≡ true)
      × (all (λ k. not (is_eligible r k) || leb j.run_after k.run_after) table ≡ true)
found_oldest r table j e = (
  oldest_holds (is_eligible r) (filter (is_eligible r) table) j (all-filter (is_eligible r) table)
      e,
  all_unless (is_eligible r) (λ k. leb j.run_after k.run_after) table
      (NotBefore-oldest j.run_after (filter (is_eligible r) table)
        (subst (NotBefore j.run_after) (sym e) (omega arith))),
)

-- A row that is claimed was eligible, and no eligible row was due before it.
pub claim_job-oldest :
    (r : Request) (table : List Job) (c : Job)
    → (claim_job r table).1 ≡ some c
    → (j : Job) × (c ≡ claimed r j)
      × (is_eligible r j ≡ true)
      × (all (λ k. not (is_eligible r k) || leb j.run_after k.run_after) table ≡ true)
claim_job-oldest r table c h = elim (Option-cases (oldest (filter (is_eligible r) table))) [
  | inl e ↦ absurd (none≢some (sym (ap (λ p. p.1) (claim_of r table none e)) ∙ h))
  | inr (j, e) ↦
      let found = found_oldest r table j e in
      (j, some_inj (sym h ∙ ap (λ p. p.1) (claim_of r table (some j) e)), found.0, found.1)
]
