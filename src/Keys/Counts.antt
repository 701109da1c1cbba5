-- ===== src/Keys/Counts.antt =====
-- How many active and rotating keys a customer has, and what the operations do to these counts.
use billcommons.Base.{
  ℕ, ◌+◌, ◌≤◌, ◌≡◌, refl, ap, Bool, true, false, Option, none, some, List, [], ◌∷◌, ◌&&◌, any,
  length, count, ◌==◌, ltb, if◌then◌else◌, arith, Bool-cases, inl, inr,
}
use billcommons.Keys.Rows.{
  ApiKey, ApiKeyStatus, active, rotating, revoked, is_active, is_rotating, is_after, usable_keys,
  active_count, find_key, update_key, set_rotating,
}

abbrev pub actives : ℕ → List ApiKey → ℕ
actives c keys = count (λ (k : ApiKey). k.customer_id == c && is_active k.status) keys

abbrev pub rotations : ℕ → ℕ → List ApiKey → ℕ
rotations c now keys =
    count (λ (k : ApiKey). k.customer_id == c && (is_rotating k.status && is_after k.revoke_at now))
      keys

abbrev pub with_id : ℕ → List ApiKey → ℕ
with_id id keys = count (λ (k : ApiKey). k.id == id) keys

after_later : (o : Option ℕ) (now t : ℕ) → now ≤ t → is_after o t ≡ true → is_after o now ≡ true
after_later none now t le h = h
after_later (some u) now t le h = ground (arith, h)

kinds_apart : (s : ApiKeyStatus) → (is_active s && is_rotating s) ≡ false
kinds_apart active = refl
kinds_apart rotating = refl
kinds_apart revoked = refl

pub length-usable :
    (c now : ℕ) (keys : List ApiKey)
    → length (usable_keys c now keys) ≡ actives c keys + rotations c now keys
unfolding usable_keys
length-usable c now [] = refl
length-usable c now (k ∷ keys) = ground (arith, length-usable c now keys, kinds_apart k.status)

pub active_count-usable :
    (c now : ℕ) (keys : List ApiKey) → active_count (usable_keys c now keys) ≡ actives c keys
unfolding usable_keys
active_count-usable c now [] = refl
active_count-usable c now (k ∷ keys) = ground (arith, active_count-usable c now keys)

pub any-rotating :
    (c now : ℕ) (keys : List ApiKey)
    → any (λ (k : ApiKey). is_rotating k.status) (usable_keys c now keys)
      ≡ ltb 0 (rotations c now keys)
unfolding usable_keys
any-rotating c now [] = refl
any-rotating c now (k ∷ keys) = ground (arith, any-rotating c now keys, kinds_apart k.status)

pub rotations-later :
    (c now t : ℕ) (keys : List ApiKey) → now ≤ t → rotations c t keys ≤ rotations c now keys
rotations-later c now t [] le = omega arith
rotations-later c now t (k ∷ keys) le =
    ground (arith, rotations-later c now t keys le, after_later k.revoke_at now t le)

pub count-update :
    (p : ApiKey → Bool) (id c : ℕ) (f : ApiKey → ApiKey) (keys : List ApiKey)
    → ((k : ApiKey) → p (f k) ≡ true → p k ≡ true)
    → count p (update_key id c f keys) ≤ count p keys
unfolding update_key
count-update p id c f [] h = omega arith
count-update p id c f (k ∷ keys) h = ground (arith, count-update p id c f keys h, h k)

absent_update :
    (id c : ℕ) (f : ApiKey → ApiKey) (keys : List ApiKey)
    → with_id id keys ≡ 0
    → update_key id c f keys ≡ keys
unfolding update_key
absent_update id c f [] h = refl
absent_update id c f (k ∷ keys) h = ground (arith, h, absent_update id c f keys)

-- A rotation adds one to the rotations of its customer at most, since a key has its own id.
pub rotations-set_rotating :
    (c now t id customer : ℕ) (keys : List ApiKey)
    → with_id id keys ≤ 1
    → rotations c t (update_key id customer (set_rotating now) keys)
      ≤ rotations c t keys + (if c == customer then 1 else 0)
unfolding update_key
rotations-set_rotating c now t id customer [] h = omega arith
rotations-set_rotating c now t id customer (k ∷ keys) h = elim (Bool-cases (k.id == id)) [
  | inl same ↦
      let rest =
        ap (rotations c t)
          (absent_update id customer (set_rotating now) keys (ground (arith, h, same))) in
      ground (arith, same, rest)
  | inr other ↦
      ground
        (arith, other, rotations-set_rotating c now t id customer keys (ground (arith, h, other)))
]

abbrev pub found_active : Option ApiKey → Bool
found_active none = false
found_active (some k) = is_active k.status

pub actives-update_rotating :
    (c now id customer : ℕ) (keys : List ApiKey)
    → actives c (update_key id customer (set_rotating now) keys) ≤ actives c keys
actives-update_rotating c now id customer keys =
    count-update (λ (k : ApiKey). k.customer_id == c && is_active k.status) id customer
      (set_rotating now) keys λ k h. ground (arith, h)

-- The key that is rotated is one active key less.
pub actives-set_rotating :
    (now id customer : ℕ) (keys : List ApiKey)
    → found_active (find_key id customer keys) ≡ true
    → actives customer (update_key id customer (set_rotating now) keys) + 1 ≤ actives customer keys
unfolding update_key find_key
actives-set_rotating now id customer [] h = ground (arith, h)
actives-set_rotating now id customer (k ∷ keys) h = ground (
  arith,
  h,
  actives-update_rotating customer now id customer keys,
  actives-set_rotating now id customer keys,
)
