-- ===== src/Base/Dict.antt =====
-- Python's `dict` with text keys, in insertion order: an entry that is set again keeps its place,
-- a new one comes last.
use Prim.Native.Nat.{◌+◌, ◌≤◌}
use Prim.Native.String.{String}
use mathlib.Core.Path.{◌≡◌, refl}
use mathlib.Core.Bool.{Bool, true, false, ◌||◌}
use mathlib.Core.Option.{Option, none, some}
use mathlib.Core.List.{List, [], ◌∷◌, map}
use native.Mathlib.Omega.{arith}
use text.Mathlib.Text.{◌==◌ as str_eq}
use text.Mathlib.TextEquality.{eq_iff}
use billcommons.Base.Tests.{if◌then◌else◌, is_some}
use billcommons.Base.Lists.{length}

abbrev pub Dict {ℓ} : Type ℓ → Type ℓ
Dict V = List (String × V)

-- k in ks
abbrev pub member : String → List String → Bool
member k [] = false
member k (j ∷ ks) = str_eq j k || member k ks

module _ {ℓ} {V : Type ℓ} where
  -- d.get(k)
  unfoldable pub get : String → Dict V → Option V
  get k [] = none
  get k ((j, v) ∷ d) = if str_eq j k then some v else get k d

  -- d[k] = v
  unfoldable pub set : String → V → Dict V → Dict V
  set k v [] = (k, v) ∷ []
  set k v ((j, w) ∷ d) = if str_eq j k then (j, v) ∷ d else (j, w) ∷ set k v d

  -- del d[k]
  unfoldable pub del : String → Dict V → Dict V
  del k [] = []
  del k ((j, v) ∷ d) = let rest = del k d in if str_eq j k then rest else (j, v) ∷ rest

  -- for k in ks: del d[k]
  unfoldable pub del_all : List String → Dict V → Dict V
  del_all [] d = d
  del_all (k ∷ ks) d = del_all ks (del k d)

  -- d.keys()
  abbrev pub keys : Dict V → List String
  keys d = map (λ (e : String × V). e.0) d

  -- No key stands twice, which a Python dictionary guarantees.
  abbrev pub IsUnique : Dict V → Type ℓ
  IsUnique [] = Unit
  IsUnique ((k, v) ∷ d) = (get k d ≡ none) × IsUnique d

  pub get-set :
      (k j : String) (v : V) (d : Dict V)
      → get j (set k v d) ≡ (if str_eq k j then some v else get j d)
  unfolding get set
  get-set k j v [] = refl
  get-set k j v ((i, w) ∷ d) = ground (arith, eq_iff k j, eq_iff i k, eq_iff i j, get-set k j v d)

  pub get-del :
      (k j : String) (d : Dict V) → get j (del k d) ≡ (if str_eq k j then none else get j d)
  unfolding get del
  get-del k j [] = ground arith
  get-del k j ((i, w) ∷ d) = ground (arith, eq_iff k j, eq_iff i k, eq_iff i j, get-del k j d)

  pub set-IsUnique : (k : String) (v : V) (d : Dict V) → IsUnique d → IsUnique (set k v d)
  unfolding get set
  set-IsUnique k v [] u = (refl, tt)
  set-IsUnique k v ((i, w) ∷ d) u =
      ground (arith, get-set k i v d, eq_iff i k, eq_iff k i, set-IsUnique k v d u.1)

  pub del-IsUnique : (k : String) (d : Dict V) → IsUnique d → IsUnique (del k d)
  unfolding get del
  del-IsUnique k [] u = tt
  del-IsUnique k ((i, w) ∷ d) u = ground (arith, get-del k i d, del-IsUnique k d u.1)

  pub length-set : (k : String) (v : V) (d : Dict V) → length (set k v d) ≤ length d + 1
  unfolding set
  length-set k v [] = omega arith
  length-set k v ((i, w) ∷ d) = ground (arith, length-set k v d)

  pub length-set_old :
      (k : String) (v w : V) (d : Dict V) → get k d ≡ some w → length (set k v d) ≡ length d
  unfolding get set
  length-set_old k v w [] h = ground arith
  length-set_old k v w ((i, x) ∷ d) h = ground (arith, length-set_old k v w d)

  pub length-del : (k : String) (d : Dict V) → length (del k d) ≤ length d
  unfolding del
  length-del k [] = omega arith
  length-del k ((i, w) ∷ d) = ground (arith, length-del k d)

  pub length-del_old :
      (k : String) (d : Dict V) → is_some (get k d) ≡ true → length (del k d) + 1 ≤ length d
  unfolding get del
  length-del_old k [] h = cc
  length-del_old k ((i, x) ∷ d) h = ground (arith, length-del_old k d, length-del k d)

  pub get-del_all :
      (k : String) (ks : List String) (d : Dict V)
      → get k (del_all ks d) ≡ (if member k ks then none else get k d)
  unfolding del_all
  get-del_all k [] d = refl
  get-del_all k (j ∷ ks) d = ground (arith, get-del_all k ks (del j d), get-del j k d)

module _ {V : Type 0} where
  -- for k in [k for k, v in d.items() if not p(v)]: del d[k]
  unfoldable pub keep : (V → Bool) → Dict V → Dict V
  keep p [] = []
  keep p ((k, v) ∷ d) = let rest = keep p d in if p v then (k, v) ∷ rest else rest

  abbrev pub only : (V → Bool) → Option V → Option V
  only p none = none
  only p (some v) = if p v then some v else none

  pub get-keep-none :
      (p : V → Bool) (k : String) (d : Dict V) → get k d ≡ none → get k (keep p d) ≡ none
  unfolding get keep
  get-keep-none p k [] h = refl
  get-keep-none p k ((i, v) ∷ d) h = ground (arith, get-keep-none p k d)

  pub get-keep :
      (p : V → Bool) (k : String) (d : Dict V) → IsUnique d → get k (keep p d) ≡ only p (get k d)
  unfolding get keep
  get-keep p k [] u = refl
  get-keep p k ((i, v) ∷ d) u =
      ground (arith, eq_iff i k, get-keep p k d u.1, get-keep-none p i d u.0)

  pub keep-IsUnique : (p : V → Bool) (d : Dict V) → IsUnique d → IsUnique (keep p d)
  unfolding keep
  keep-IsUnique p [] u = tt
  keep-IsUnique p ((i, v) ∷ d) u = ground (arith, get-keep-none p i d u.0, keep-IsUnique p d u.1)

  pub length-keep : (p : V → Bool) (d : Dict V) → length (keep p d) ≤ length d
  unfolding keep
  length-keep p [] = omega arith
  length-keep p ((i, v) ∷ d) = ground (arith, length-keep p d)

  pub del_all-IsUnique : (ks : List String) (d : Dict V) → IsUnique d → IsUnique (del_all ks d)
  unfolding del_all
  del_all-IsUnique [] d u = u
  del_all-IsUnique (k ∷ ks) d u = del_all-IsUnique ks (del k d) (del-IsUnique k d u)

  pub length-del_all : (ks : List String) (d : Dict V) → length (del_all ks d) ≤ length d
  unfolding del_all
  length-del_all [] d = omega arith
  length-del_all (k ∷ ks) d = omega (arith, length-del_all ks (del k d), length-del {0} k d)
