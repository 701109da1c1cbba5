-- ===== src/Keys/FirstLogin.antt =====
-- The key that a first login mints: no customer gets two.
use billcommons.Base.{
  ℕ, ◌≡◌, ap, String, Bool, true, Option, none, some, List, [], ◌∷◌, ◌++◌, leb, ◌&&◌, not, any,
  length, ◌==◌, if_induction, arith,
}
use billcommons.Quota.Plans.{Plan}
use billcommons.Keys.Rows.{
  ApiKey, Material, KeyResult, mint_key, fresh, usable_keys, active_count,
  max_active_keys_per_customer, max_usable_keys_per_customer,
}
use billcommons.Keys.Load.{
  ApiSubscription, ApiCustomer, of_customer, mint_developer_key_if_first_login, is_new,
  find_customer,
}

abbrev is_own : ℕ → ApiKey → Bool
is_own customer k = k.customer_id == customer

any-added :
    (customer : ℕ) (keys : List ApiKey) (row : ApiKey)
    → is_own customer row ≡ true
    → any (is_own customer) (keys ++ (row ∷ [])) ≡ true
any-added customer [] row h = ground (arith, h)
any-added customer (k ∷ keys) row h = ground (arith, any-added customer keys row h)

mint_key-own :
    (m : Material) (customer now : ℕ) (environment : String) (plan : Plan) (name : String)
    (keys : List ApiKey) (row : ApiKey)
    → (mint_key m customer now environment plan name keys).1 ≡ KeyResult.minted row
    → any (is_own customer) (mint_key m customer now environment plan name keys).0 ≡ true
unfolding mint_key
mint_key-own m customer now environment plan name keys row =
    let P = λ (p : List ApiKey × KeyResult).
      p.1 ≡ KeyResult.minted row → any (is_own customer) p.0 ≡ true in
    let usable = usable_keys customer now keys in
    if_induction P (leb max_active_keys_per_customer (active_count usable))
      (λ _ e. ground (arith, e))
      λ _.
        if_induction P (leb max_usable_keys_per_customer (length usable)) (λ _ e. ground (arith, e))
          λ _ e.
            any-added customer keys (fresh m customer name environment plan none) (ground arith)

abbrev result_of : KeyResult → Option KeyResult → KeyResult
result_of r none = r
result_of r (some q) = q

first_login-own :
    (m : Material) (customer now : ℕ) (customers : List ApiCustomer) (ss : List ApiSubscription)
    (keys : List ApiKey) (row : ApiKey)
    → (mint_developer_key_if_first_login m customer now customers ss keys).1
      ≡ some (KeyResult.minted row)
    → any (is_own customer) (mint_developer_key_if_first_login m customer now customers ss keys).0
      ≡ true
unfolding mint_developer_key_if_first_login
first_login-own m customer now customers ss keys row =
    let minted = mint_key m customer now "live" Plan.developer "default" keys in
    if_induction
      (λ (p : List ApiKey × Option KeyResult).
        p.1 ≡ some (KeyResult.minted row) → any (is_own customer) p.0 ≡ true)
      (is_new (find_customer customer customers)
        && not (any (λ (k : ApiKey). k.customer_id == customer) keys)
        && not (any (of_customer customer) ss))
      (λ _ e.
        mint_key-own m customer now "live" Plan.developer "default" keys row
          (ap (result_of (KeyResult.minted row)) e))
      λ _ e. ground (arith, e)

second_login-none :
    (m : Material) (customer now : ℕ) (customers : List ApiCustomer) (ss : List ApiSubscription)
    (keys : List ApiKey)
    → any (is_own customer) keys ≡ true
    → (mint_developer_key_if_first_login m customer now customers ss keys).1 ≡ none
unfolding mint_developer_key_if_first_login
second_login-none m customer now customers ss keys h = ground (arith, h)

-- Who has been given a key at the first login is given no other that way.
pub mint_developer_key_if_first_login-once :
    (m m' : Material) (customer now now' : ℕ) (customers customers' : List ApiCustomer)
    (ss ss' : List ApiSubscription) (keys : List ApiKey) (row : ApiKey)
    → (mint_developer_key_if_first_login m customer now customers ss keys).1
      ≡ some (KeyResult.minted row)
    → (mint_developer_key_if_first_login m' customer now' customers' ss'
        (mint_developer_key_if_first_login m customer now customers ss keys).0).1
      ≡ none
mint_developer_key_if_first_login-once m m' customer now now' customers customers' ss ss' keys row
      h =
    second_login-none m' customer now' customers' ss' _
      (first_login-own m customer now customers ss keys row h)
