-- ===== src/Bill/Status/Greatest.antt =====
-- The greatest of a list of entries, and of a part of it.
use billcommons.Base.{
  ℕ, suc, ◌≡◌, refl, sym, ◌∙◌, ap, subst, Bool, true, false, Option, none, some, List, [], ◌∷◌,
  ◌&&◌, any, filter, length, if_induction, Bool-cases, ◌⊎◌, inl, inr, false≢true, arith,
}
use billcommons.Bill.Status.{Entry, status_eq, date_eq, less, first_max, max_entry, remove}

-- The greatest of what a test keeps is at most the greatest of all.
abbrev AtMost : Option Entry → Entry → Type 0
AtMost none w = Unit
AtMost (some m) w = less w m ≡ false

not_less_trans : (a b c : Entry) → less a b ≡ false → less b c ≡ false → less a c ≡ false
not_less_trans a b c h k = ground arith

less_asym : (a b : Entry) → less a b ≡ true → less b a ≡ false
less_asym a b h = ground arith

AtMost-each :
    (e : Entry) (o : Option Entry) (w : Entry)
    → AtMost (some (first_max e o)) w
    → (less w e ≡ false) × AtMost o w
AtMost-each e none w h = (h, tt)
AtMost-each e (some m) w h =
    ground (arith, less_asym e m, not_less_trans w m e, not_less_trans w e m)

AtMost-both :
    (e : Entry) (o : Option Entry) (w : Entry)
    → less w e ≡ false
    → AtMost o w
    → AtMost (some (first_max e o)) w
AtMost-both e none w h k = h
AtMost-both e (some m) w h k = if_induction (λ x. less w x ≡ false) (less e m) (λ _. k) λ _. h

filter-AtMost :
    (keep : Entry → Bool) (es : List Entry) (w : Entry)
    → AtMost (max_entry es) w
    → AtMost (max_entry (filter keep es)) w
unfolding max_entry
filter-AtMost keep [] w h = tt
filter-AtMost keep (e ∷ es) w h =
    let each = AtMost-each e (max_entry es) w h in
    let later = filter-AtMost keep es w each.1 in
    if_induction (λ l. AtMost (max_entry l) w) (keep e)
      (λ _. AtMost-both e (max_entry (filter keep es)) w each.0 later) λ _. later

pub first_or_later :
    (e : Entry) (o : Option Entry) (w : Entry)
    → some (first_max e o) ≡ some w
    → ((e ≡ w) × AtMost o e) ⊎ ((o ≡ some w) × (less e w ≡ true))
first_or_later e none w h = inl (ground arith, tt)
first_or_later e (some m) w h = elim (Bool-cases (less e m)) [
  | inl l ↦
      inr (let mw : m ≡ w = ground (arith, l) in (ap some mw, subst (λ x. less e x ≡ true) mw l))
  | inr g ↦ inl (ground (arith, g), g)
]

stays_first : (e : Entry) (o : Option Entry) → AtMost o e → first_max e o ≡ e
stays_first e none h = refl
stays_first e (some m) h = rw h refl

pub max-filter :
    (keep : Entry → Bool) (es : List Entry) (w : Entry)
    → max_entry es ≡ some w
    → keep w ≡ true
    → max_entry (filter keep es) ≡ some w
unfolding max_entry
max-filter keep [] w h k = ground arith
max-filter keep (e ∷ es) w h k = elim (first_or_later e (max_entry es) w h) [
  | inl (same, most) ↦
      if_induction (λ l. max_entry l ≡ some w) (keep e)
        (λ _.
          ap some (stays_first e (max_entry (filter keep es)) (filter-AtMost keep es e most))
          ∙ ap some same)
        λ off. absurd (false≢true (sym off ∙ ap keep same ∙ k))
  | inr (later, less_w) ↦
      let found = max-filter keep es w later k in
      if_induction (λ l. max_entry l ≡ some w) (keep e)
        (λ _. ap (λ o. some (first_max e o)) found ∙ rw less_w refl) λ _. found
]

remove-filter :
    (keep : Entry → Bool) (w : Entry) (es : List Entry)
    → keep w ≡ false
    → ((a b : Entry)
        → date_eq a.date b.date && status_eq a.status b.status ≡ true
        → keep a ≡ keep b)
    → filter keep (remove w es) ≡ filter keep es
unfolding remove
remove-filter keep w [] h same = refl
remove-filter keep w (e ∷ es) h same = ground (arith, same e w, remove-filter keep w es h same)

-- The entries that `remove` takes for w.
abbrev pub same : Entry → Entry → Bool
same w e = date_eq e.date w.date && status_eq e.status w.status

same_refl : (w : Entry) → same w w ≡ true
same_refl w = date_same w.date
  where
    date_same : (d : Option ℕ) → date_eq d d && status_eq w.status w.status ≡ true
    date_same none = ground arith
    date_same (some x) = ground arith

pub max-member : (es : List Entry) (w : Entry) → max_entry es ≡ some w → any (same w) es ≡ true
unfolding max_entry
max-member [] w h = ground arith
max-member (e ∷ es) w h = elim (first_or_later e (max_entry es) w h) [
  | inl (at, most) ↦ ground (arith, subst (λ x. same w x ≡ true) (sym at) (same_refl w))
  | inr (later, less_w) ↦ ground (arith, max-member es w later)
]

pub member-filter :
    (p keep : Entry → Bool) (es : List Entry) → any p (filter keep es) ≡ true → any p es ≡ true
member-filter p keep [] h = h
member-filter p keep (e ∷ es) h = ground (arith, member-filter p keep es)

pub length-remove :
    (w : Entry) (es : List Entry) → any (same w) es ≡ true → suc (length (remove w es)) ≡ length es
unfolding remove
length-remove w [] h = ground arith
length-remove w (e ∷ es) h = ground (arith, length-remove w es)

pub filter_comm :
    (p q : Entry → Bool) (es : List Entry) → filter p (filter q es) ≡ filter q (filter p es)
filter_comm p q [] = refl
filter_comm p q (e ∷ es) = ground (arith, filter_comm p q es)
