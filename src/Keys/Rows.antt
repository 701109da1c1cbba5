-- ===== src/Keys/Rows.antt =====
-- The rows of `api_keys` and what apps/api/billcommons_api/api_keys.py does to them. Every operation
-- runs under the lock of the customer's row, so it is one step. Times are whole microseconds; the
-- prefix and the hash of a new key, which come from a random secret, are inputs.
use billcommons.Base.{
  ℕ, ◌+◌, String, Bool, true, false, Option, none, some, List, [], ◌∷◌, ◌++◌, ◌&&◌, ◌||◌, any,
  filter, map, length, ◌==◌, leb, ltb, is_some, if◌then◌else◌,
}
use billcommons.Quota.Plans.{Plan}

pub data ApiKeyStatus : Type 0 where
  active rotating revoked : ApiKeyStatus

abbrev pub is_active : ApiKeyStatus → Bool
is_active active = true
is_active _ = false

abbrev pub is_rotating : ApiKeyStatus → Bool
is_rotating rotating = true
is_rotating _ = false

abbrev pub is_revoked : ApiKeyStatus → Bool
is_revoked revoked = true
is_revoked _ = false

pub record ApiKey : Type 0 where
  pub id : ℕ
  pub customer_id : ℕ
  pub name : String
  pub key_prefix : String
  pub key_hash : String
  pub environment : String
  pub plan : Plan
  pub status : ApiKeyStatus
  pub rotated_from : Option ℕ
  pub revoke_at : Option ℕ
  pub revoked_at : Option ℕ
  pub reveal_ciphertext : Option String
  pub reveal_token_hash : Option String
  pub reveal_expires_at : Option ℕ

abbrev pub max_usable_keys_per_customer : ℕ
max_usable_keys_per_customer = 3

abbrev pub max_active_keys_per_customer : ℕ
max_active_keys_per_customer = 2

abbrev pub rotation_overlap : ℕ
rotation_overlap = 86400000000

pub record Material : Type 0 where
  pub id : ℕ
  pub key_prefix : String
  pub key_hash : String

abbrev pub is_after : Option ℕ → ℕ → Bool
is_after none now = false
is_after (some t) now = ltb now t

-- r.status == "active" or (r.status == "rotating" and r.revoke_at and r.revoke_at > now)
abbrev pub is_usable : ℕ → ApiKey → Bool
is_usable now k = is_active k.status || (is_rotating k.status && is_after k.revoke_at now)

abbrev pub is_of : ℕ → ApiKey → Bool
is_of customer k = k.customer_id == customer

unfoldable pub usable_keys : ℕ → ℕ → List ApiKey → List ApiKey
usable_keys customer now keys = filter (is_usable now) (filter (is_of customer) keys)

abbrev pub active_count : List ApiKey → ℕ
active_count keys = length (filter (λ (k : ApiKey). is_active k.status) keys)

pub data KeyResult : Type 0 where
  minted : ApiKey → KeyResult
  key_limit_exceeded : String → KeyResult

abbrev pub fresh : Material → ℕ → String → String → Plan → Option ℕ → ApiKey
fresh m customer name environment plan rotated_from = record {
  id = m.id;
  customer_id = customer;
  name = name;
  key_prefix = m.key_prefix;
  key_hash = m.key_hash;
  environment = environment;
  plan = plan;
  status = active;
  rotated_from = rotated_from;
  revoke_at = none;
  revoked_at = none;
  reveal_ciphertext = none;
  reveal_token_hash = none;
  reveal_expires_at = none;
}

unfoldable pub mint_key :
    Material → ℕ → ℕ → String → Plan → String → List ApiKey → List ApiKey × KeyResult
mint_key m customer now environment plan name keys =
    let usable = usable_keys customer now keys in
    let row = fresh m customer name environment plan none in
    if leb max_active_keys_per_customer (active_count usable)
    then (keys, KeyResult.key_limit_exceeded "active keys")
    else if leb max_usable_keys_per_customer (length usable)
    then (keys, KeyResult.key_limit_exceeded "usable keys")
    else (keys ++ (row ∷ []), KeyResult.minted row)

abbrev pub is_row : ℕ → ℕ → ApiKey → Bool
is_row id customer k = k.id == id && k.customer_id == customer

unfoldable pub find_key : ℕ → ℕ → List ApiKey → Option ApiKey
find_key id customer [] = none
find_key id customer (k ∷ keys) = if is_row id customer k then some k else find_key id customer keys

unfoldable pub update_key : ℕ → ℕ → (ApiKey → ApiKey) → List ApiKey → List ApiKey
update_key id customer f keys = map (λ (k : ApiKey). if is_row id customer k then f k else k) keys

abbrev pub set_rotating : ℕ → ApiKey → ApiKey
set_rotating now k = record k { status = rotating; revoke_at = some (now + rotation_overlap) }

-- `now` is the reading of the clock at the check, `then_now` the one at the write.
unfoldable pub rotate_found :
    Material → ℕ → ℕ → ℕ → ℕ → Option ApiKey → List ApiKey → List ApiKey × KeyResult
rotate_found m id customer now then_now none keys =
    (keys, KeyResult.key_limit_exceeded "key not found or not active")
rotate_found m id customer now then_now (some old) keys =
    let usable = usable_keys customer now keys in
    let row = fresh m customer old.name old.environment old.plan (some old.id) in
    if is_active old.status
    then (if any (λ (k : ApiKey). is_rotating k.status) usable
        then (keys, KeyResult.key_limit_exceeded "a rotation is already in flight")
        else if leb max_usable_keys_per_customer (length usable)
        then (keys, KeyResult.key_limit_exceeded "rotation would exceed the ceiling")
        else (
          update_key id customer (set_rotating then_now) keys ++ (row ∷ []),
          KeyResult.minted row,
        ))
    else (keys, KeyResult.key_limit_exceeded "key not found or not active")

unfoldable pub rotate_key : Material → ℕ → ℕ → ℕ → ℕ → List ApiKey → List ApiKey × KeyResult
unfolding rotate_found
rotate_key m id customer now then_now keys =
    rotate_found m id customer now then_now (find_key id customer keys) keys

abbrev pub set_revoked : ℕ → ApiKey → ApiKey
set_revoked now k = record k { status = revoked; revoked_at = some now; revoke_at = some now }

-- A key that is not found changes nothing.
unfoldable pub revoke_key : ℕ → ℕ → ℕ → List ApiKey → List ApiKey
revoke_key id customer now keys = update_key id customer (set_revoked now) keys

abbrev pub has_expired : Option ℕ → ℕ → Bool
has_expired none now = false
has_expired (some t) now = ltb t now

-- A key whose plaintext was not revealed in time.
abbrev pub is_stale_reveal : ℕ → ApiKey → Bool
is_stale_reveal now k =
    (is_active k.status || is_rotating k.status)
    && (is_some k.reveal_ciphertext && has_expired k.reveal_expires_at now)

unfoldable pub expire_stale_reveal : ℕ → ApiKey → ApiKey
expire_stale_reveal now k =
    if is_stale_reveal now k
    then record k {
      status = revoked;
      revoked_at = some now;
      reveal_ciphertext = none;
      reveal_token_hash = none;
      reveal_expires_at = none;
    }
    else k
