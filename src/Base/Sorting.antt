-- ===== src/Base/Sorting.antt =====
-- `sorted` by a Boolean order: a stable insertion sort, and what a slice of its result leaves out.
use Prim.Native.Nat.{ℕ, zero, suc}
use mathlib.Core.Path.{◌≡◌, refl, ◌∙◌, ap}
use mathlib.Core.Bool.{Bool, true, false, ◌&&◌, ◌||◌}
use mathlib.Core.List.{List, [], ◌∷◌}
use native.Mathlib.Omega.{arith}
use billcommons.Base.Tests.{if◌then◌else◌, if_induction, ◌==◌, ltb}
use billcommons.Base.Lists.{all, any, length, filter, take, drop}
use billcommons.Base.Text.{Text}

module _ {A : Type 0} where
  pub all-drop : (p : A → Bool) (n : ℕ) (xs : List A) → all p xs ≡ true → all p (drop n xs) ≡ true
  all-drop p zero xs h = h
  all-drop p (suc n) [] h = h
  all-drop p (suc n) (x ∷ xs) h = all-drop p n xs (ground (arith, h))

  pub all-filter : (p q : A → Bool) (xs : List A) → all p xs ≡ true → all p (filter q xs) ≡ true
  all-filter p q [] h = refl
  all-filter p q (x ∷ xs) h = ground (arith, h, all-filter p q xs)

module _ {A : Type 0} (le : A → A → Bool) where
  pub insert_by : A → List A → List A
  insert_by a [] = a ∷ []
  insert_by a (x ∷ xs) = let rest = insert_by a xs in if le a x then a ∷ x ∷ xs else x ∷ rest

  unfoldable pub sort_by : List A → List A
  unfolding insert_by
  sort_by [] = []
  sort_by (x ∷ xs) = insert_by x (sort_by xs)

  -- Each stands before those that follow.
  abbrev pub IsOrdered : List A → Type 0
  IsOrdered [] = Unit
  IsOrdered (x ∷ xs) = (all (le x) xs ≡ true) × IsOrdered xs

  any-insert_by : (p : A → Bool) (a : A) (xs : List A) → any p (insert_by a xs) ≡ (p a || any p xs)
  unfolding insert_by
  any-insert_by p a [] = refl
  any-insert_by p a (x ∷ xs) = ground (arith, any-insert_by p a xs)

  all-insert_by : (p : A → Bool) (a : A) (xs : List A) → all p (insert_by a xs) ≡ (p a && all p xs)
  unfolding insert_by
  all-insert_by p a [] = refl
  all-insert_by p a (x ∷ xs) = ground (arith, all-insert_by p a xs)

  -- Sorting loses nothing and adds nothing.
  pub any-sort_by : (p : A → Bool) (xs : List A) → any p (sort_by xs) ≡ any p xs
  unfolding sort_by
  any-sort_by p [] = refl
  any-sort_by p (x ∷ xs) = any-insert_by p x (sort_by xs) ∙ ap (λ b. p x || b) (any-sort_by p xs)

  pub all-sort_by : (p : A → Bool) (xs : List A) → all p (sort_by xs) ≡ all p xs
  unfolding sort_by
  all-sort_by p [] = refl
  all-sort_by p (x ∷ xs) = all-insert_by p x (sort_by xs) ∙ ap (λ b. p x && b) (all-sort_by p xs)

  length-insert_by : (a : A) (xs : List A) → length (insert_by a xs) ≡ suc (length xs)
  unfolding insert_by
  length-insert_by a [] = refl
  length-insert_by a (x ∷ xs) = ground (arith, length-insert_by a xs)

  pub length-sort_by : (xs : List A) → length (sort_by xs) ≡ length xs
  unfolding sort_by
  length-sort_by [] = refl
  length-sort_by (x ∷ xs) = length-insert_by x (sort_by xs) ∙ ap suc (length-sort_by xs)

  module _ (total : (a b : A) → le a b ≡ false → le b a ≡ true)
      (trans : (a b c : A) → le a b ≡ true → le b c ≡ true → le a c ≡ true) where
    all_later :
        (a x : A) (xs : List A) → le a x ≡ true → all (le x) xs ≡ true → all (le a) xs ≡ true
    all_later a x [] h k = refl
    all_later a x (y ∷ ys) h k = ground (arith, h, k, trans a x y, all_later a x ys)

    insert_by-IsOrdered : (a : A) (xs : List A) → IsOrdered xs → IsOrdered (insert_by a xs)
    unfolding insert_by
    insert_by-IsOrdered a [] o = (refl, tt)
    insert_by-IsOrdered a (x ∷ xs) o =
        if_induction IsOrdered (le a x)
          (λ first. (ground (arith, first, all_later a x xs first o.0), o))
          λ later. (
            all-insert_by (le x) a xs ∙ ground (arith, total a x later, o.0),
            insert_by-IsOrdered a xs o.1,
          )

    pub sort_by-IsOrdered : (xs : List A) → IsOrdered (sort_by xs)
    unfolding sort_by
    sort_by-IsOrdered [] = tt
    sort_by-IsOrdered (x ∷ xs) = insert_by-IsOrdered x (sort_by xs) (sort_by-IsOrdered xs)

    insert_first : (a : A) (xs : List A) → all (le a) xs ≡ true → insert_by a xs ≡ a ∷ xs
    unfolding insert_by
    insert_first a [] h = refl
    insert_first a (x ∷ xs) h = ground (arith, h)

    filter-insert_by :
        (p : A → Bool) (a : A) (xs : List A)
        → IsOrdered xs
        → filter p (insert_by a xs) ≡ (if p a then insert_by a (filter p xs) else filter p xs)
    unfolding insert_by
    filter-insert_by p a [] o = ground arith
    filter-insert_by p a (x ∷ xs) o = ground (
      arith,
      o.0,
      filter-insert_by p a xs o.1,
      all_later a x xs,
      all-filter (le a) p xs,
      insert_first a (filter p xs),
    )

    -- A part of the sorted list is that part, sorted.
    pub filter-sort_by :
        (p : A → Bool) (xs : List A) → filter p (sort_by xs) ≡ sort_by (filter p xs)
    unfolding sort_by
    filter-sort_by p [] = refl
    filter-sort_by p (x ∷ xs) =
        filter-insert_by p x (sort_by xs) (sort_by-IsOrdered xs)
        ∙ ground (arith, filter-sort_by p xs)

  -- What stands in the first n comes before everything behind them.
  pub taken_first :
      (n : ℕ) (xs : List A) → IsOrdered xs → all (λ x. all (le x) (drop n xs)) (take n xs) ≡ true
  taken_first zero xs o = refl
  taken_first (suc n) [] o = refl
  taken_first (suc n) (x ∷ xs) o = ground (arith, all-drop (le x) n xs o.0, taken_first n xs o.1)

-- What holds of each pair, in either order, holds of each pair of the sorted list.
module _ {A : Type 0} (le r : A → A → Bool) (symm : (a b : A) → r a b ≡ true → r b a ≡ true) where
  insert_by-pairs :
      (a : A) (xs : List A) → all (r a) xs ≡ true → IsOrdered r xs → IsOrdered r (insert_by le a xs)
  unfolding insert_by
  insert_by-pairs a [] h o = (refl, tt)
  insert_by-pairs a (x ∷ xs) h o =
      if_induction (IsOrdered r) (le a x) (λ _. (h, o))
        λ _. (
          all-insert_by le (r x) a xs ∙ ground (arith, h, o.0, symm a x),
          insert_by-pairs a xs (ground (arith, h)) o.1,
        )

  pub sort_by-pairs : (xs : List A) → IsOrdered r xs → IsOrdered r (sort_by le xs)
  unfolding sort_by
  sort_by-pairs [] o = tt
  sort_by-pairs (x ∷ xs) o =
      insert_by-pairs x (sort_by le xs) (all-sort_by le (r x) xs ∙ o.0) (sort_by-pairs xs o.1)

-- The order of texts by their code points.
abbrev pub text_le : Text → Text → Bool
text_le [] t = true
text_le (c ∷ s) [] = false
text_le (c ∷ s) (d ∷ t) = ltb c d || (c == d && text_le s t)

pub text_le-total : (s t : Text) → text_le s t ≡ false → text_le t s ≡ true
text_le-total [] t h = ground (arith, h)
text_le-total (c ∷ s) [] h = refl
text_le-total (c ∷ s) (d ∷ t) h = ground (arith, h, text_le-total s t)

pub text_le_trans : (r s t : Text) → text_le r s ≡ true → text_le s t ≡ true → text_le r t ≡ true
text_le_trans [] s t h k = refl
text_le_trans (b ∷ r) [] t h k = ground (arith, h)
text_le_trans (b ∷ r) (c ∷ s) [] h k = ground (arith, k)
text_le_trans (b ∷ r) (c ∷ s) (d ∷ t) h k = ground (arith, h, k, text_le_trans r s t)
