-- ===== src/Keys/Ceiling.antt =====
-- A customer never has more than three usable keys, of which two are active, and a revoked key stays
-- revoked, whatever the customer does.
use billcommons.Base.{
  ℕ, ◌≤◌, ◌<◌, ◌≡◌, refl, sym, subst, String, Bool, true, List, [], ◌∷◌, ◌&&◌, not, all, length,
  ◌==◌, arith,
}
use billcommons.Quota.Plans.{Plan}
use billcommons.Keys.Counts.{with_id, length-usable, active_count-usable, found_active}
use billcommons.Keys.Rotation.{IsSafe-rotate}
use billcommons.Keys.Safety.{
  IsSafe, none_with, IsSafe-mint, IsSafe-tame, IsTame-revoked, IsTame-expired,
}
use billcommons.Keys.Rows.{
  ApiKey, Material, is_revoked, usable_keys, active_count, mint_key, find_key, update_key,
  rotate_key, set_revoked, revoke_key, expire_stale_reveal,
}

-- What one request does to the table, and the time after it. The database gives a new row a new id.
pub data Step (t : ℕ) (keys : List ApiKey) (t' : ℕ) (keys' : List ApiKey) : Type 0 where
  mints :
      (m : Material) (customer : ℕ) (environment : String) (plan : Plan) (name : String)
      → t ≤ t'
      → all (λ (k : ApiKey). not (k.id == m.id)) keys ≡ true
      → keys' ≡ (mint_key m customer t' environment plan name keys).0
      → Step t keys t' keys'
  rotates :
      (m : Material) (id customer now : ℕ)
      → t ≤ now
      → now ≤ t'
      → all (λ (k : ApiKey). not (k.id == m.id)) keys ≡ true
      → keys' ≡ (rotate_key m id customer now t' keys).0
      → Step t keys t' keys'
  revokes :
      (id customer : ℕ) → t ≤ t' → keys' ≡ revoke_key id customer t' keys → Step t keys t' keys'
  expires :
      (id customer : ℕ)
      → t ≤ t'
      → keys' ≡ update_key id customer (expire_stale_reveal t') keys
      → Step t keys t' keys'

pub data Reach : ℕ → List ApiKey → Type 0 where
  start : Reach 0 []
  after :
      {t t' : ℕ} {keys keys' : List ApiKey} → Reach t keys → Step t keys t' keys' → Reach t' keys'

IsSafe-Step :
    (t t' : ℕ) (keys keys' : List ApiKey) → Step t keys t' keys' → IsSafe t keys → IsSafe t' keys'
unfolding rotate_key revoke_key
IsSafe-Step t t' keys keys' (mints m customer environment plan name le free e) s =
    subst (IsSafe t') (sym e)
      (IsSafe-mint m customer t t' environment plan name keys le (none_with m.id keys free) s)
IsSafe-Step t t' keys keys' (rotates m id customer now le le' free e) s =
    subst (IsSafe t') (sym e) (
      IsSafe-rotate m id customer t now t' (find_key id customer keys) keys le le'
        (none_with m.id keys free) refl s)
IsSafe-Step t t' keys keys' (revokes id customer le e) s =
    subst (IsSafe t') (sym e)
      (IsSafe-tame t t' id customer (set_revoked t') keys le (IsTame-revoked t') s)
IsSafe-Step t t' keys keys' (expires id customer le e) s =
    subst (IsSafe t') (sym e)
      (IsSafe-tame t t' id customer (expire_stale_reveal t') keys le (IsTame-expired t') s)

Reach-IsSafe : {t : ℕ} {keys : List ApiKey} → Reach t keys → IsSafe t keys
Reach-IsSafe start = (λ c. (omega arith, omega arith), λ id. omega arith)
Reach-IsSafe (after {t} {t'} {keys} {keys'} r step) =
    IsSafe-Step t t' keys keys' step (Reach-IsSafe r)

-- In every table that mints, rotations, revocations and expired reveals reach a customer has at most
-- two active keys and at most three usable ones.
pub Reach-ceiling :
    (t customer : ℕ) (keys : List ApiKey)
    → Reach t keys
    → (active_count (usable_keys customer t keys) ≤ 2) × (length (usable_keys customer t keys) ≤ 3)
Reach-ceiling t customer keys r =
    let w = (Reach-IsSafe r).0 customer in
    (
      omega (arith, w.0, active_count-usable customer t keys),
      omega (arith, w.0, w.1, length-usable customer t keys),
    )

-- The row has the id and is revoked.
abbrev pub is_dead : ℕ → ApiKey → Bool
is_dead i k = k.id == i && is_revoked k.status

found-counted :
    (id c : ℕ) (keys : List ApiKey) → found_active (find_key id c keys) ≡ true → 0 < with_id id keys
unfolding find_key
found-counted id c [] h = ground (arith, h)
found-counted id c (k ∷ keys) h = ground (arith, h, found-counted id c keys)
