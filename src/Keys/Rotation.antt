-- ===== src/Keys/Rotation.antt =====
-- A rotation keeps to the bounds of two active keys and one rotation in flight.
use billcommons.Base.{
  ℕ, ◌≤◌, ◌≡◌, refl, ◌∙◌, ap, Option, none, some, List, any, length, ◌==◌, leb, if_induction, arith,
  Bool-cases, inl, inr,
}
use billcommons.Keys.Counts.{
  rotations, with_id, any-rotating, rotations-later, rotations-set_rotating, found_active,
  actives-update_rotating, actives-set_rotating,
}
use billcommons.Keys.Rows.{
  ApiKey, Material, KeyResult, is_active, is_rotating, usable_keys, find_key, update_key,
  set_rotating, rotate_found, max_usable_keys_per_customer,
}
use billcommons.Keys.Safety.{
  IsSafe, IsWithin, IsWithin-later, IsUnique-update, none_with_update, same_id, IsUnique-added,
  IsWithin-added,
}

-- The rotation of an active key while no rotation is in flight.
IsWithin-rotated :
    (t t' now id customer : ℕ) (keys : List ApiKey)
    → t ≤ t'
    → IsSafe t keys
    → rotations customer t keys ≡ 0
    → IsWithin t' (update_key id customer (set_rotating now) keys)
IsWithin-rotated t t' now id customer keys le s idle c = (
  omega (arith, (s.0 c).0, actives-update_rotating c now id customer keys),
  elim (Bool-cases (c == customer)) [
    | inl same ↦ ground (
      arith,
      same,
      idle,
      ap (λ d. rotations d t keys) (same_id c customer same),
      rotations-later c t t' keys le,
      rotations-set_rotating c now t' id customer keys (s.1 id),
    )
    | inr other ↦ ground (
      arith,
      other,
      (s.0 c).1,
      rotations-later c t t' keys le,
      rotations-set_rotating c now t' id customer keys (s.1 id),
    )
  ],
)

pub IsSafe-rotate :
    (m : Material) (id customer t now t' : ℕ) (old : Option ApiKey) (keys : List ApiKey)
    → t ≤ now
    → now ≤ t'
    → with_id m.id keys ≡ 0
    → find_key id customer keys ≡ old
    → IsSafe t keys
    → IsSafe t' (rotate_found m id customer now t' old keys).0
unfolding rotate_found
IsSafe-rotate m id customer t now t' none keys le le' free e s =
    (IsWithin-later t t' keys (omega arith) s.0, s.1)
IsSafe-rotate m id customer t now t' (some old) keys le le' free e s =
    let stays : IsSafe t' keys = (IsWithin-later t t' keys (omega arith) s.0, s.1) in
    let usable = usable_keys customer now keys in
    let s' : IsSafe now keys = (IsWithin-later t now keys le s.0, s.1) in
    if_induction (λ (p : List ApiKey × KeyResult). IsSafe t' p.0) (is_active old.status)
      (λ act.
        if_induction (λ (p : List ApiKey × KeyResult). IsSafe t' p.0)
          (any (λ (k : ApiKey). is_rotating k.status) usable) (λ _. stays)
          λ idle.
            if_induction (λ (p : List ApiKey × KeyResult). IsSafe t' p.0)
              (leb max_usable_keys_per_customer (length usable)) (λ _. stays)
              λ _. (
                IsWithin-added m customer old.name old.environment old.plan (some old.id) t' _
                    (omega (
                      arith,
                      (s.0 customer).0,
                      actives-set_rotating t' id customer keys (ap found_active e ∙ act),
                    ))
                    (IsWithin-rotated now t' t' id customer keys le' s'
                      (ground (arith, idle, any-rotating customer now keys))),
                IsUnique-added m customer old.name old.environment old.plan (some old.id) _
                    (none_with_update m.id id customer (set_rotating t') keys (λ k. refl) free)
                    (IsUnique-update id customer (set_rotating t') keys (λ k. refl) s.1),
              ))
      λ _. stays
