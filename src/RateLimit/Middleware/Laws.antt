-- ===== src/RateLimit/Middleware/Laws.antt =====
-- A refused request charges no bucket, an admitted one each of its buckets once.
use billcommons.Base.{
  ℕ, ◌+◌, ◌≤◌, ◌<◌, String, ◌≡◌, refl, Bool, true, false, List, [], ◌∷◌, arith, ◌∙◌, length,
}
use billcommons.Base.Dict.{IsUnique}
use billcommons.RateLimit.Counter.{Counter, existing, allow, peek}
use billcommons.RateLimit.Counter.Verdicts.{existing-peek, peek-eq-allow}
use billcommons.RateLimit.Counter.Charges.{
  existing_lem, SameLimits, peek-SameLimits, peek-IsUnique, length-peek,
}
use billcommons.RateLimit.Counter.Retry.{peek-allowed}
use billcommons.RateLimit.Middleware.{
  Limits, Slot, Keys, Headers, default_ip, heavy_ip, default_subnet, heavy_subnet, refused,
  counter_of, put_counter, key_of, check_all, ask_all, reply_passed, slots_for,
}

-- The clock does not go back from one reading to the next.
abbrev pub Forward : (ℕ → ℕ) → Type 0
Forward clock = (i j : ℕ) → i ≤ j → clock i ≤ clock j

abbrev pub AllUnique : Limits → Type 0
AllUnique l = (s : Slot) → IsUnique (counter_of s l).buckets

-- What a counter admits at one time it admits later too, where nothing was charged in between.
pub allow_after_peek :
    (t t' : ℕ) (key : String) (c : Counter)
    → IsUnique c.buckets
    → t ≤ t'
    → (peek t key c).1.allowed ≡ true
    → (allow t' key (peek t key c).0).1.allowed ≡ true
allow_after_peek t t' key c u later h = ground (
  arith,
  peek-eq-allow t' key (peek t key c).0,
  peek-allowed t key c u,
  peek-allowed t' key (peek t key c).0 (peek-IsUnique t key c u),
  existing-peek later key c u key,
  existing_lem t key c,
  existing_lem t' key c,
  peek-SameLimits t key c,
)

pub put_induction :
    (P : Slot → Counter → Type 0) (s : Slot) (c : Counter) (l : Limits)
    → ((r : Slot) → P r (counter_of r l))
    → P s c
    → (r : Slot) → P r (counter_of r (put_counter s c l))
unfolding counter_of put_counter
put_induction P default_ip c l old new default_ip = new
put_induction P default_ip c l old new r = old r
put_induction P heavy_ip c l old new heavy_ip = new
put_induction P heavy_ip c l old new r = old r
put_induction P default_subnet c l old new default_subnet = new
put_induction P default_subnet c l old new r = old r
put_induction P heavy_subnet c l old new heavy_subnet = new
put_induction P heavy_subnet c l old new r = old r

-- What a look leaves of a counter, seen at the time `t`.
pub record Unspent (t : ℕ) (c c' : Counter) : Type 0 where
  pub unique : IsUnique c'.buckets
  pub same : SameLimits c' c
  pub kept : (j : String) → existing t j c' ≡ existing t j c
  pub smaller : length c'.buckets ≤ length c.buckets

Unspent-refl : (t : ℕ) (c : Counter) → IsUnique c.buckets → Unspent t c c
Unspent-refl t c u = record {
  unique = u;
  same = record { limit = refl; window = refl; max_keys = refl };
  kept = λ j. refl;
  smaller = omega arith;
}

Unspent-peek :
    (t now : ℕ) (key : String) (c c' : Counter)
    → now ≤ t
    → Unspent t c c'
    → Unspent t c (peek now key c').0
Unspent-peek t now key c c' later h = record {
  unique = peek-IsUnique now key c' h.unique;
  same = record {
    limit = (peek-SameLimits now key c').limit ∙ h.same.limit;
    window = (peek-SameLimits now key c').window ∙ h.same.window;
    max_keys = (peek-SameLimits now key c').max_keys ∙ h.same.max_keys;
  };
  kept = λ j. existing-peek later j c' h.unique key ∙ h.kept j;
  smaller = omega (arith, length-peek now key c', h.smaller);
}

module _ (clock : ℕ → ℕ) (keys : Keys) (t : ℕ) (l : Limits) where
  -- Peeking at any buckets spends nothing.
  ask_peek-Unspent :
      (ss : List Slot) (i : ℕ) (m : Limits)
      → ((k : ℕ) → k < i + length ss → clock k ≤ t)
      → ((r : Slot) → Unspent t (counter_of r l) (counter_of r m))
      → (r : Slot) → Unspent t (counter_of r l) (counter_of r (ask_all peek clock i keys ss m).0)
  unfolding ask_all
  ask_peek-Unspent [] i m past h r = h r
  ask_peek-Unspent (s ∷ ss) i m past h r =
      let key = key_of s keys in
      let c = (peek (clock i) key (counter_of s m)).0 in
      ask_peek-Unspent ss (i + 1) (put_counter s c m) (λ k lt. past k (omega arith))
        (put_induction (λ q a. Unspent t (counter_of q l) a) s c m h
          (Unspent-peek t (clock i) key (counter_of s l) (counter_of s m) (past i (omega arith))
            (h s)))
        r

length-slots_for : (heavy : Bool) → length (slots_for heavy) ≤ 4
length-slots_for true = omega arith
length-slots_for false = omega arith

abbrev pub peeked : (ℕ → ℕ) → Keys → Bool → Limits → Limits
peeked clock keys heavy l = (ask_all peek clock 0 keys (slots_for heavy) l).0

module _ (clock : ℕ → ℕ) (fwd : Forward clock) (keys : Keys) (heavy : Bool) (l : Limits)
    (u : AllUnique l) where
  pub peeked-Unspent :
      (t : ℕ)
      → clock 3 ≤ t
      → (s : Slot) → Unspent t (counter_of s l) (counter_of s (peeked clock keys heavy l))
  peeked-Unspent t later =
      ask_peek-Unspent clock keys t l (slots_for heavy) 0 l
        (λ k lt. omega (arith, fwd k 3 (omega (arith, length-slots_for heavy))))
        (λ r. Unspent-refl t (counter_of r l) (u r))

  pub refused-peeked :
      (n : ℕ) (hd : Headers)
      → (check_all clock keys heavy l).1 ≡ refused n hd
      → (check_all clock keys heavy l).0 ≡ peeked clock keys heavy l
  unfolding check_all reply_passed
  refused-peeked n hd h = ground arith

  -- A refused request spends nothing in any bucket, of its own keys or of others, where the clock
  -- does not go back and the dictionaries have unique keys.
  pub refused_spends_nothing :
      (n : ℕ) (hd : Headers)
      → (check_all clock keys heavy l).1 ≡ refused n hd
      → (s : Slot) (j : String) (t : ℕ) → clock 3 ≤ t
      → existing t j (counter_of s (check_all clock keys heavy l).0) ≡ existing t j (counter_of s l)
  refused_spends_nothing n hd h s j t later =
      rw (refused-peeked n hd h) ((peeked-Unspent t later s).kept j)
