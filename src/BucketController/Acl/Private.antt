-- ===== src/BucketController/Acl/Private.antt =====
-- Which grants `flattenObsBucketCannedACL` takes for the private ACL.
use obs_operator.Base.{
  suc, String, ◌≡◌, refl, sym, ap, ◌∙◌, ◌≢◌, true, false, none, some, List, [], ◌∷◌, map, arith,
}
use obs_operator.Base.{◌==◌, eq-of-==, string_eq, nat_eq, length, Bool-cases, inl, inr}
use obs_operator.Services.{Grant, GetBucketAclOutput, ObsConstants}
use obs_operator.BucketController.Acl.{
  GrantSignature, grant_signature_eq, all_in, grant_signature, acl_matches, owner_grant,
  public_read_grant, public_read_write_grants, log_delivery_grants, flatten_grants,
  flatten_canned_acl,
}

-- The three names of the ACLs that are not private are other names.
abbrev pub PrivateIsOther : ObsConstants → Type 0
PrivateIsOther C =
    (C.acl_public_read ≢ C.acl_private)
    × (C.acl_public_read_write ≢ C.acl_private)
    × (C.acl_log_delivery_write ≢ C.acl_private)

false-ne : false ≢ true
false-ne h = cc

none-ne : (a : String) → none ≢ some a
none-ne a h = cc

-- A list of one that contains a signature is that signature.
singleton :
    (actual : List GrantSignature) (g : GrantSignature)
    → length actual ≡ 1
    → all_in actual (g ∷ []) ≡ true
    → actual ≡ g ∷ []
unfolding all_in
singleton [] g h c = ground arith
singleton (x ∷ []) g h c = elim (Bool-cases (g == x)) [
  | inl t ↦ ap (λ y. y ∷ []) (sym (eq-of-== g x t))
  | inr t ↦ absurd (false-ne (rw t at c))
]
singleton (x ∷ y ∷ ys) g h c = ground arith

some_inj : (a b : String) → some a ≡ some b → a ≡ b
some_inj a b h = cc

module _ (C : ObsConstants) where
  length-map : (gs : List Grant) → length (map (grant_signature C) gs) ≡ length gs
  length-map [] = refl
  length-map (g ∷ gs) = ap suc (length-map gs)

  acl_matches_one :
      (actual : List Grant) (g : GrantSignature)
      → acl_matches C actual (g ∷ []) ≡ true
      → map (grant_signature C) actual ≡ g ∷ []
  unfolding acl_matches
  acl_matches_one actual g h = elim (Bool-cases (length actual == 1)) [
    | inl t ↦
        singleton (map (grant_signature C) actual) g
          (length-map actual ∙ eq-of-== (length actual) 1 t) (rw t at h)
    | inr t ↦ absurd (false-ne (rw t at h))
  ]

  flatten_grants-private :
      (owner : String) (grants : List Grant)
      → PrivateIsOther C
      → flatten_grants C owner grants ≡ some C.acl_private
      → map (grant_signature C) grants ≡ owner_grant C owner ∷ []
  unfolding flatten_grants
  flatten_grants-private owner grants (r, rw', l) h =
      elim (Bool-cases (acl_matches C grants (owner_grant C owner ∷ []))) [
        | inl t ↦ acl_matches_one grants (owner_grant C owner) t
        | inr t ↦
            elim (Bool-cases
              (acl_matches C grants (owner_grant C owner ∷ public_read_grant C ∷ []))) [
                | inl u ↦ absurd (r (some_inj _ _ (rw (t, u) at h)))
                | inr u ↦
                    elim (Bool-cases (acl_matches C grants (public_read_write_grants C owner))) [
                      | inl v ↦ absurd (rw' (some_inj _ _ (rw (t, u, v) at h)))
                      | inr v ↦
                          elim (Bool-cases (acl_matches C grants (log_delivery_grants C owner))) [
                            | inl x ↦ absurd (l (some_inj _ _ (rw (t, u, v, x) at h)))
                            | inr x ↦ absurd (none-ne C.acl_private (rw (t, u, v, x) at h))
                          ]
                    ]
              ]
      ]

  -- A bucket that has an owner and counts as private has one grant, that of full control to its
  -- owner, provided that the names of the other canned ACLs are not that of the private one.
  pub flatten_canned_acl-private :
      (o : GetBucketAclOutput)
      → PrivateIsOther C
      → flatten_canned_acl C (some o) ≡ some C.acl_private
      → map (grant_signature C) o.grants ≡ owner_grant C o.owner_id ∷ []
  unfolding flatten_canned_acl
  flatten_canned_acl-private o p h = elim (Bool-cases (o.owner_id == "")) [
    | inl t ↦ absurd (none-ne C.acl_private (rw t at h))
    | inr t ↦ flatten_grants-private o.owner_id o.grants p (rw t at h)
  ]
