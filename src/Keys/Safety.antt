-- ===== src/Keys/Safety.antt =====
-- Two active keys and one rotation in flight: each operation keeps to these bounds.
use billcommons.Base.{
  ℕ, ◌≤◌, ◌≡◌, refl, ap, String, true, Option, none, List, [], ◌∷◌, ◌++◌, ◌&&◌, not, all, length,
  count-append, ◌==◌, leb, if_induction, arith, Bool-cases, inl, inr,
}
use billcommons.Quota.Plans.{Plan}
use billcommons.Keys.Counts.{
  actives, rotations, with_id, active_count-usable, rotations-later, count-update,
}
use billcommons.Keys.Rows.{
  ApiKey, Material, KeyResult, is_active, is_rotating, is_after, usable_keys, active_count, fresh,
  mint_key, update_key, set_revoked, expire_stale_reveal, max_active_keys_per_customer,
  max_usable_keys_per_customer,
}

-- At most two active keys and one rotation in flight.
abbrev pub IsWithin : ℕ → List ApiKey → Type 0
IsWithin t keys = (c : ℕ) → (actives c keys ≤ 2) × (rotations c t keys ≤ 1)

abbrev pub IsUnique : List ApiKey → Type 0
IsUnique keys = (id : ℕ) → with_id id keys ≤ 1

-- The change neither activates a key nor starts a rotation.
abbrev pub IsTame : ℕ → (ApiKey → ApiKey) → Type 0
IsTame t f =
    (k : ApiKey)
    → ((f k).id ≡ k.id)
      × ((f k).customer_id ≡ k.customer_id)
      × (is_active (f k).status ≡ true → is_active k.status ≡ true)
      × ((is_rotating (f k).status && is_after (f k).revoke_at t) ≡ true
          → (is_rotating k.status && is_after k.revoke_at t) ≡ true)

pub IsWithin-later : (t t' : ℕ) (keys : List ApiKey) → t ≤ t' → IsWithin t keys → IsWithin t' keys
IsWithin-later t t' keys le w c = ((w c).0, omega (arith, (w c).1, rotations-later c t t' keys le))

IsWithin-tame :
    (t id customer : ℕ) (f : ApiKey → ApiKey) (keys : List ApiKey)
    → IsTame t f
    → IsWithin t keys
    → IsWithin t (update_key id customer f keys)
IsWithin-tame t id customer f keys tame w c = (
  omega (
    arith,
    (w c).0,
    count-update (λ (k : ApiKey). k.customer_id == c && is_active k.status) id customer f keys
        λ k h. ground (arith, h, tame k),
  ),
  omega (
    arith,
    (w c).1,
    count-update
        (λ (k : ApiKey). k.customer_id == c && (is_rotating k.status && is_after k.revoke_at t)) id
        customer f keys λ k h. ground (arith, h, tame k),
  ),
)

pub IsUnique-update :
    (id customer : ℕ) (f : ApiKey → ApiKey) (keys : List ApiKey)
    → ((k : ApiKey) → (f k).id ≡ k.id)
    → IsUnique keys
    → IsUnique (update_key id customer f keys)
IsUnique-update id customer f keys same u i = omega (
  arith,
  u i,
  count-update (λ (k : ApiKey). k.id == i) id customer f keys λ k h. ground (arith, h, same k),
)

pub none_with :
    (id : ℕ) (keys : List ApiKey)
    → all (λ (k : ApiKey). not (k.id == id)) keys ≡ true
    → with_id id keys ≡ 0
none_with id [] h = refl
none_with id (k ∷ keys) h = ground (arith, h, none_with id keys)

pub none_with_update :
    (i id c : ℕ) (f : ApiKey → ApiKey) (keys : List ApiKey)
    → ((k : ApiKey) → (f k).id ≡ k.id)
    → with_id i keys ≡ 0
    → with_id i (update_key id c f keys) ≡ 0
none_with_update i id c f keys same h = omega (
  arith,
  h,
  count-update (λ (k : ApiKey). k.id == i) id c f keys λ k e. ground (arith, e, same k),
)

pub same_id : (i j : ℕ) → (i == j) ≡ true → i ≡ j
same_id i j h = ground (arith, h)

module _ (m : Material) (customer : ℕ) (name environment : String) (plan : Plan)
    (from : Option ℕ) where
  pub IsUnique-added :
      (keys : List ApiKey)
      → with_id m.id keys ≡ 0
      → IsUnique keys
      → IsUnique (keys ++ (fresh m customer name environment plan from ∷ []))
  IsUnique-added keys free u i = elim (Bool-cases (m.id == i)) [
    | inl same ↦ ground (
      arith,
      same,
      free,
      ap (λ j. with_id j keys) (same_id m.id i same),
      count-append (λ (k : ApiKey). k.id == i) keys
          (fresh m customer name environment plan from ∷ []),
    )
    | inr other ↦ ground (
      arith,
      other,
      u i,
      count-append (λ (k : ApiKey). k.id == i) keys
          (fresh m customer name environment plan from ∷ []),
    )
  ]

  pub IsWithin-added :
      (t : ℕ) (keys : List ApiKey)
      → actives customer keys ≤ 1
      → IsWithin t keys
      → IsWithin t (keys ++ (fresh m customer name environment plan from ∷ []))
  IsWithin-added t keys room w c =
      let row = fresh m customer name environment plan from ∷ [] in
      (
        elim (Bool-cases (customer == c)) [
          | inl same ↦ ground (
            arith,
            same,
            room,
            ap (λ d. actives d keys) (same_id customer c same),
            count-append (λ (k : ApiKey). k.customer_id == c && is_active k.status) keys row,
          )
          | inr other ↦ ground (
            arith,
            other,
            (w c).0,
            count-append (λ (k : ApiKey). k.customer_id == c && is_active k.status) keys row,
          )
        ],
        ground (
          arith,
          (w c).1,
          count-append
              (λ (k : ApiKey).
                k.customer_id == c && (is_rotating k.status && is_after k.revoke_at t))
              keys row,
        ),
      )

abbrev pub IsSafe : ℕ → List ApiKey → Type 0
IsSafe t keys = IsWithin t keys × IsUnique keys

pub IsSafe-mint :
    (m : Material) (customer t t' : ℕ) (environment : String) (plan : Plan) (name : String)
    (keys : List ApiKey)
    → t ≤ t'
    → with_id m.id keys ≡ 0
    → IsSafe t keys
    → IsSafe t' (mint_key m customer t' environment plan name keys).0
unfolding mint_key
IsSafe-mint m customer t t' environment plan name keys le free s =
    let w = IsWithin-later t t' keys le s.0 in
    let usable = usable_keys customer t' keys in
    if_induction (λ (p : List ApiKey × KeyResult). IsSafe t' p.0)
      (leb max_active_keys_per_customer (active_count usable)) (λ _. (w, s.1))
      λ few.
        if_induction (λ (p : List ApiKey × KeyResult). IsSafe t' p.0)
          (leb max_usable_keys_per_customer (length usable)) (λ _. (w, s.1))
          λ _. (
            IsWithin-added m customer name environment plan none t' keys
                (ground (arith, few, active_count-usable customer t' keys)) w,
            IsUnique-added m customer name environment plan none keys free s.1,
          )

pub IsTame-revoked : (t : ℕ) → IsTame t (set_revoked t)
IsTame-revoked t k = (refl, refl, λ h. ground (arith, h), λ h. ground (arith, h))

pub IsTame-expired : (t : ℕ) → IsTame t (expire_stale_reveal t)
unfolding expire_stale_reveal
IsTame-expired t k = (ground arith, ground arith, λ h. ground (arith, h), λ h. ground (arith, h))

pub IsSafe-tame :
    (t t' id customer : ℕ) (f : ApiKey → ApiKey) (keys : List ApiKey)
    → t ≤ t'
    → IsTame t' f
    → IsSafe t keys
    → IsSafe t' (update_key id customer f keys)
IsSafe-tame t t' id customer f keys le tame s = (
  IsWithin-tame t' id customer f keys tame (IsWithin-later t t' keys le s.0),
  IsUnique-update id customer f keys (λ k. (tame k).0) s.1,
)
