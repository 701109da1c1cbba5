-- ===== src/RateLimit/Routes.antt =====
-- The heavy routes of rate_limit.py. The patterns have no alternation and no slash in a wildcard, so
-- that each is a list of path segments.
use billcommons.Base.{
  ℕ, String, ◌≡◌, ◌≢◌, refl, Bool, true, false, Option, none, some, List, [], ◌∷◌, ◌++◌, arith,
  ◌&&◌, ◌||◌, ◌==◌, not, any, ap, if_induction, if◌then◌else◌,
}
use mathlib.Core.Option
use mathlib.Core.List.{append_assoc}
use billcommons.Base.Text.{Text, codes, text_eq, split_on, cons_first}

-- A literal segment, or `[^/]+`.
pub data Piece : Type 0 where
  lit : String → Piece
  one_or_more : Piece

abbrev slash : ℕ
slash = b'/'

abbrev newline : ℕ
newline = 10

abbrev is_empty : Text → Bool
is_empty [] = true
is_empty (c ∷ s) = false

matches_piece : Piece → Text → Bool
matches_piece (lit t) s = text_eq (codes t) s
matches_piece one_or_more s = not (is_empty s)

-- The pieces, then `/?`.
match_pieces : List Piece → List Text → Bool
unfolding matches_piece
match_pieces [] [] = true
match_pieces [] (s ∷ []) = is_empty s
match_pieces [] (s ∷ r ∷ ss) = false
match_pieces (p ∷ ps) [] = false
match_pieces (p ∷ ps) (s ∷ ss) = matches_piece p s && match_pieces ps ss

api : List Piece → List Piece
api ps = lit "" ∷ lit "api" ∷ lit "v1" ∷ ps

unfoldable pub heavy_route_patterns : List (List Piece)
unfolding api
heavy_route_patterns =
    api (lit "bills" ∷ [])
    ∷ api (lit "bills" ∷ one_or_more ∷ lit "full" ∷ [])
    ∷ api (lit "bills" ∷ one_or_more ∷ lit "versions" ∷ [])
    ∷ api (lit "bills" ∷ one_or_more ∷ lit "compare" ∷ [])
    ∷ api (lit "bills" ∷ one_or_more ∷ lit "documents" ∷ one_or_more ∷ lit "text" ∷ [])
    ∷ api (lit "search" ∷ [])
    ∷ []

-- What stands before a newline at the end, where `$` matches too.
chop_newline : Text → Option Text
chop_newline [] = none
chop_newline (c ∷ []) = if c == newline then some [] else none
chop_newline (c ∷ d ∷ s) = Option.map (λ r. c ∷ r) (chop_newline (d ∷ s))

match_path : List Piece → Text → Bool
unfolding match_pieces chop_newline
match_path ps path =
    match_pieces ps (split_on slash path)
    || (elim (chop_newline path) [ none ↦ false | some r ↦ match_pieces ps (split_on slash r) ])

unfoldable pub is_heavy_route : Text → Bool
unfolding match_path heavy_route_patterns
is_heavy_route path = any (λ ps. match_path ps path) heavy_route_patterns

abbrev exempt_paths : List Text
exempt_paths = codes "/api/v1/health" ∷ codes "/api/v1/ready" ∷ []

unfoldable pub is_exempt_path : Text → Bool
is_exempt_path path = any (λ p. text_eq p path) exempt_paths

heavy_tests :
    (is_heavy_route (codes "/api/v1/bills/12/documents/3/text/") ≡ true)
    × (is_heavy_route (codes "/api/v1/bills//full") ≡ false)
    × (is_heavy_route (codes "/api/v1/bills/12") ≡ false)
    × (is_heavy_route (codes "/api/v1/search") ≡ true)
unfolding is_heavy_route
heavy_tests = (refl, refl, refl, refl)

-- The last segment is not empty.
abbrev EndsFull : List Text → Type 0
EndsFull [] = ⊥
EndsFull (s ∷ []) = is_empty s ≡ false
EndsFull (s ∷ r ∷ ss) = EndsFull (r ∷ ss)

cons_first-EndsFull : (d : ℕ) (ss : List Text) → EndsFull ss → EndsFull (cons_first d ss)
cons_first-EndsFull d [] h = absurd h
cons_first-EndsFull d (s ∷ []) h = refl
cons_first-EndsFull d (s ∷ r ∷ ss) h = h

cons_first-append :
    (d : ℕ) (ss ts : List Text) → EndsFull ss → cons_first d (ss ++ ts) ≡ cons_first d ss ++ ts
cons_first-append d [] ts h = absurd h
cons_first-append d (s ∷ ss) ts h = refl

empty-EndsFull : (ss : List Text) → EndsFull ss → EndsFull ([] ∷ ss)
empty-EndsFull [] h = absurd h
empty-EndsFull (s ∷ ss) h = h

abbrev Full : List Text → Type 0
Full [] = Unit
Full (s ∷ []) = is_empty s ≡ false
Full (s ∷ r ∷ ss) = Full (r ∷ ss)

EndsFull-Full : (ss : List Text) → EndsFull ss → Full ss
EndsFull-Full [] h = tt
EndsFull-Full (s ∷ []) h = h
EndsFull-Full (s ∷ r ∷ ss) h = EndsFull-Full (r ∷ ss) h

split-EndsFull : (p : Text) (c : ℕ) → c ≢ slash → EndsFull (split_on slash (p ++ c ∷ []))
split-EndsFull [] c h =
    if_induction EndsFull (c == slash) (λ e. absurd (h (ground arith))) (λ _. refl)
split-EndsFull (d ∷ p) c h =
    let ih = split-EndsFull p c h in
    if_induction EndsFull (d == slash) (λ _. empty-EndsFull (split_on slash (p ++ c ∷ [])) ih)
      (λ _. cons_first-EndsFull d (split_on slash (p ++ c ∷ [])) ih)

split-slash :
    (p : Text) (c : ℕ)
    → c ≢ slash
    → split_on slash (p ++ c ∷ slash ∷ []) ≡ split_on slash (p ++ c ∷ []) ++ [] ∷ []
split-slash [] c h = ground arith
split-slash (d ∷ p) c h = rw (split-slash p c h) (
    ground
      (arith, cons_first-append d (split_on slash (p ++ c ∷ [])) ([] ∷ []) (split-EndsFull p c h)))

abbrev NeverEmpty : List Piece → Type 0
NeverEmpty [] = Unit
NeverEmpty (p ∷ ps) = (matches_piece p [] ≡ false) × NeverEmpty ps

match_pieces-slash :
    (ps : List Piece) (ss : List Text)
    → NeverEmpty ps
    → Full ss
    → match_pieces ps (ss ++ [] ∷ []) ≡ match_pieces ps ss
unfolding match_pieces
match_pieces-slash [] [] ne h = refl
match_pieces-slash [] (s ∷ []) ne h = ground arith
match_pieces-slash [] (s ∷ r ∷ ss) ne h = refl
match_pieces-slash (p ∷ ps) [] ne h = ground arith
match_pieces-slash (p ∷ ps) (s ∷ []) ne h =
    ap (λ b. matches_piece p s && b) (match_pieces-slash ps [] ne.1 tt)
match_pieces-slash (p ∷ ps) (s ∷ r ∷ ss) ne h =
    ap (λ b. matches_piece p s && b) (match_pieces-slash ps (r ∷ ss) ne.1 h)

-- The first piece may be empty: it stands before the first slash.
match_pieces-EndsFull :
    (p : Piece) (ps : List Piece) (ss : List Text)
    → NeverEmpty ps
    → EndsFull ss
    → match_pieces (p ∷ ps) (ss ++ [] ∷ []) ≡ match_pieces (p ∷ ps) ss
unfolding match_pieces
match_pieces-EndsFull p ps [] ne h = absurd h
match_pieces-EndsFull p ps (s ∷ []) ne h =
    ap (λ b. matches_piece p s && b) (match_pieces-slash ps [] ne tt)
match_pieces-EndsFull p ps (s ∷ r ∷ ss) ne h =
    ap (λ b. matches_piece p s && b) (match_pieces-slash ps (r ∷ ss) ne (EndsFull-Full (r ∷ ss) h))

chop_newline-append : (p : Text) (c : ℕ) → c ≢ newline → chop_newline (p ++ c ∷ []) ≡ none
unfolding chop_newline
chop_newline-append [] c h = ground arith
chop_newline-append (d ∷ []) c h = rw (chop_newline-append [] c h)
chop_newline-append (d ∷ e ∷ p) c h = rw (chop_newline-append (e ∷ p) c h)

chop_newline-slash : (p : Text) (c : ℕ) → chop_newline (p ++ c ∷ slash ∷ []) ≡ none
chop_newline-slash p c =
    rw (append_assoc p (c ∷ []) (slash ∷ [])) at
      (chop_newline-append (p ++ c ∷ []) slash (omega arith))

module _ (p : Text) (c : ℕ) (no_slash : c ≢ slash) (no_newline : c ≢ newline) where
  match_path-slash :
      (q : Piece) (ps : List Piece)
      → NeverEmpty ps
      → match_path (q ∷ ps) (p ++ c ∷ slash ∷ []) ≡ match_path (q ∷ ps) (p ++ c ∷ [])
  unfolding match_path
  match_path-slash q ps ne = rw (
    chop_newline-append p c no_newline,
    chop_newline-slash p c,
    split-slash p c no_slash,
    match_pieces-EndsFull q ps (split_on slash (p ++ c ∷ [])) ne (split-EndsFull p c no_slash),
  )

  same_path :
      (ps : List Piece)
      → NeverEmpty ps
      → match_path (lit "" ∷ ps) (p ++ c ∷ slash ∷ []) ≡ match_path (lit "" ∷ ps) (p ++ c ∷ [])
  same_path ps ne = match_path-slash (lit "") ps ne

  -- A slash behind a path makes no difference to the tier.
  pub is_heavy_route-slash : is_heavy_route (p ++ c ∷ slash ∷ []) ≡ is_heavy_route (p ++ c ∷ [])
  unfolding is_heavy_route
  is_heavy_route-slash = cc (
    same_path (lit "api" ∷ lit "v1" ∷ lit "bills" ∷ []) (refl, (refl, (refl, tt))),
    same_path (lit "api" ∷ lit "v1" ∷ lit "bills" ∷ one_or_more ∷ lit "full" ∷ [])
        (refl, (refl, (refl, (refl, (refl, tt))))),
    same_path (lit "api" ∷ lit "v1" ∷ lit "bills" ∷ one_or_more ∷ lit "versions" ∷ [])
        (refl, (refl, (refl, (refl, (refl, tt))))),
    same_path (lit "api" ∷ lit "v1" ∷ lit "bills" ∷ one_or_more ∷ lit "compare" ∷ [])
        (refl, (refl, (refl, (refl, (refl, tt))))),
    same_path
        (lit "api"
          ∷ lit "v1"
          ∷ lit "bills"
          ∷ one_or_more
          ∷ lit "documents"
          ∷ one_or_more
          ∷ lit "text"
          ∷ [])
        (refl, (refl, (refl, (refl, (refl, (refl, (refl, tt))))))),
    same_path (lit "api" ∷ lit "v1" ∷ lit "search" ∷ []) (refl, (refl, (refl, tt))),
  )
