-- ===== src/Bill/Status/Resolve.antt =====
-- The loop of `derive_status` reports the greatest entry once every stale death is left out.
use billcommons.Base.{
  ℕ, zero, suc, ◌≤◌, ◌≡◌, refl, sym, ◌∙◌, ap, subst, true, false, Option, none, some, List, [], ◌∷◌,
  not, any, filter, length, ltb, if◌then◌else◌, if_induction, arith,
}
use billcommons.Bill.Vocabulary.{Status, is_terminal, rank}
use billcommons.Bill.Status.{
  Entry, day, status_eq, date_eq, max_entry, remove, is_concluding, or_else, pool, is_stale,
  resolve,
}
use billcommons.Bill.Status.Greatest.{
  max-filter, max-member, member-filter, length-remove, filter_comm, same,
}

dead_concludes : (s : Status) → status_eq s Status.dead ≡ true → is_terminal s ≡ true
unfolding rank is_terminal
dead_concludes Status.introduced h = ground arith
dead_concludes Status.in_committee h = ground arith
dead_concludes Status.substituted h = ground arith
dead_concludes Status.passed_one_chamber h = ground arith
dead_concludes Status.passed_both h = ground arith
dead_concludes Status.enrolled h = ground arith
dead_concludes Status.enacted h = refl
dead_concludes Status.vetoed h = refl
dead_concludes Status.dead h = refl
dead_concludes Status.withdrawn h = refl
dead_concludes Status.died_on_adjournment h = refl

-- Where nothing is concluded nothing is stale.
all_fresh :
    (dates : List ℕ) (es : List Entry)
    → filter is_concluding es ≡ []
    → filter (λ e. not (is_stale dates e)) es ≡ es
all_fresh dates [] h = refl
all_fresh dates (e ∷ es) h = ground (arith, dead_concludes e.status, all_fresh dates es)

abbrev pub fresh : List ℕ → List Entry → List Entry
fresh dates = filter (λ e. not (is_stale dates e))

abbrev pub status_of : Option Entry → Option Status
status_of none = none
status_of (some e) = some e.status

-- The greatest entry of those that are not stale, a concluding one if there is one.
abbrev pub without_stale : List ℕ → List Entry → Option Status
without_stale dates es = status_of (max_entry (pool (fresh dates es)))

same_day : (d e : Option ℕ) → date_eq d e ≡ true → day d ≡ day e
same_day none none h = refl
same_day none (some e) h = ground arith
same_day (some d) none h = ground arith
same_day (some d) (some e) h = ground arith

same_stale : (dates : List ℕ) (a b : Entry) → same b a ≡ true → is_stale dates a ≡ is_stale dates b
same_stale dates a b h = ground (
  arith,
  same_day a.date b.date,
  ap (λ x. any (ltb x) dates) (same_day a.date b.date (ground (arith, h))),
)

remove-fresh :
    (dates : List ℕ) (w : Entry) (es : List Entry)
    → is_stale dates w ≡ true
    → fresh dates (remove w es) ≡ fresh dates es
unfolding remove
remove-fresh dates w [] stale = refl
remove-fresh dates w (e ∷ es) stale =
    ground (arith, same_stale dates e w, remove-fresh dates w es stale)

pub pool-member :
    (es : List Entry) (w : Entry) → any (same w) (pool es) ≡ true → any (same w) es ≡ true
pool-member es w h = go (filter is_concluding es) refl h
  where
    go :
        (ts : List Entry)
        → filter is_concluding es ≡ ts
        → any (same w) (or_else ts es) ≡ true
        → any (same w) es ≡ true
    go [] eq k = k
    go (t ∷ ts) eq k =
        member-filter (same w) is_concluding es (subst (λ l. any (same w) l ≡ true) (sym eq) k)

pub max-or_else :
    (ts es : List Entry) (w : Entry) → max_entry ts ≡ some w → max_entry (or_else ts es) ≡ some w
unfolding max_entry
max-or_else [] es w h = ground arith
max-or_else (t ∷ ts) es w h = h

fresh_winner :
    (dates : List ℕ) (es : List Entry) (w : Entry)
    → max_entry (pool es) ≡ some w
    → is_stale dates w ≡ false
    → max_entry (pool (fresh dates es)) ≡ some w
fresh_winner dates es w win live = go (filter is_concluding es) refl win
  where
    go :
        (ts : List Entry)
        → filter is_concluding es ≡ ts
        → max_entry (or_else ts es) ≡ some w
        → max_entry (pool (fresh dates es)) ≡ some w
    go [] eq k = ap (λ l. max_entry (pool l)) (all_fresh dates es eq) ∙ win
    go (t ∷ ts) eq k = max-or_else (filter is_concluding (fresh dates es)) (fresh dates es) w (
        ap max_entry (filter_comm is_concluding (λ e. not (is_stale dates e)) es)
        ∙ max-filter (λ e. not (is_stale dates e)) (filter is_concluding es) w (ap max_entry eq ∙ k)
            (rw live refl))

empty_pool : (es : List Entry) → max_entry (pool es) ≡ none → es ≡ []
unfolding max_entry
empty_pool es h = go es (filter is_concluding es) h
  where
    go : (xs ts : List Entry) → max_entry (or_else ts xs) ≡ none → xs ≡ []
    go [] ts k = refl
    go (x ∷ xs) [] k = ground arith
    go (x ∷ xs) (t ∷ ts) k = ground arith

none_reported : (dates : List ℕ) → none ≡ without_stale dates []
unfolding max_entry
none_reported dates = refl

-- With at least as much fuel as entries the loop of derive_status that drops stale deaths one by
-- one reports the greatest entry of those that are not stale, a concluding one if there is one.
pub resolve-eq-without_stale :
    (dates : List ℕ) (fuel : ℕ) (es : List Entry)
    → length es ≤ fuel
    → resolve dates fuel es ≡ without_stale dates es
unfolding resolve
resolve-eq-without_stale dates zero [] le = unfold max_entry in refl
resolve-eq-without_stale dates zero (e ∷ es) le = absurd (omega arith)
resolve-eq-without_stale dates (suc fuel) es le =
    go (λ w. resolve-eq-without_stale dates fuel (remove w es)) (max_entry (pool es)) refl
  where
    go :
        ((w : Entry)
          → length (remove w es) ≤ fuel
          → resolve dates fuel (remove w es) ≡ without_stale dates (remove w es))
        → (o : Option Entry) → max_entry (pool es) ≡ o
        → (elim o [
          | none ↦ none
          | some winner ↦
              let again = resolve dates fuel (remove winner es) in
              if is_stale dates winner then again else some winner.status
        ])
          ≡ without_stale dates es
    go again none eq = none_reported dates ∙ ap (without_stale dates) (sym (empty_pool es eq))
    go again (some w) eq =
        if_induction (λ r. r ≡ without_stale dates es) (is_stale dates w)
          (λ stale.
            again w
              (omega (arith, le, length-remove w es (pool-member es w (max-member (pool es) w eq))))
            ∙ ap (λ l. status_of (max_entry (pool l))) (remove-fresh dates w es stale))
          λ live. sym (ap status_of (fresh_winner dates es w eq live))
