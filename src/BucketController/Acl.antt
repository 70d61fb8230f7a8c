-- ===== src/BucketController/Acl.antt =====
-- From the grants of a bucket to its canned ACL: `flattenObsBucketCannedACL`,
-- `obsBucketACLMatches` and `normalizeObsBucketGrantURI`.
pub mod Private
use obs_operator.Base.{String, Bool, true, false, ◌&&◌, Option, none, some, List, [], ◌∷◌}
use obs_operator.Base.{map, Eq, ◌==◌, contains, string_eq, string_discrete, nat_eq, length}
use obs_operator.Base.{if◌then◌else◌}
use obs_operator.Base.Text.{split, last_part}
use obs_operator.Services.{Grant, GetBucketAclOutput, ObsConstants}

-- `obsBucketGrantSignature`
pub record GrantSignature : Type 0 where
  pub grantee_type : String
  pub grantee_id : String
  pub grantee_uri : String
  pub permission : String
  pub delivered : Bool

GrantSignature-discrete : Discrete GrantSignature
GrantSignature-discrete = hlevel string_discrete

instance unfoldable pub grant_signature_eq : Eq GrantSignature
unfolding GrantSignature-discrete string_discrete
grant_signature_eq = record { dec = GrantSignature-discrete }

-- `len(actual) != len(expected)`, then every expected signature is in the set of the actual ones.
unfoldable pub all_in : List GrantSignature → List GrantSignature → Bool
all_in actual [] = true
all_in actual (g ∷ expected) = contains actual g && all_in actual expected

module _ (C : ObsConstants) where
  unfoldable pub normalize_grant_uri : String → String → String
  unfolding string_eq split last_part
  normalize_grant_uri grantee_type uri =
      if grantee_type == C.grantee_user
      then ""
      else if uri == ""
      then ""
      else last_part (split b'/' uri)

  unfoldable pub grant_signature : Grant → GrantSignature
  unfolding normalize_grant_uri
  grant_signature g = record {
    grantee_type = g.grantee_type;
    grantee_id = g.grantee_id;
    grantee_uri = normalize_grant_uri g.grantee_type g.grantee_uri;
    permission = g.permission;
    delivered = g.delivered;
  }

  unfoldable pub acl_matches : List Grant → List GrantSignature → Bool
  unfolding grant_signature all_in grant_signature_eq
  acl_matches actual expected =
      if length actual == length expected
      then all_in (map grant_signature actual) expected
      else false

  abbrev pub owner_grant : String → GrantSignature
  owner_grant owner = record {
    grantee_type = C.grantee_user;
    grantee_id = owner;
    grantee_uri = "";
    permission = C.permission_full_control;
    delivered = false;
  }

  abbrev pub group_grant : String → String → GrantSignature
  group_grant group permission = record {
    grantee_type = C.grantee_group;
    grantee_id = "";
    grantee_uri = group;
    permission = permission;
    delivered = false;
  }

  abbrev pub public_read_grant : GrantSignature
  public_read_grant = group_grant C.group_all_users C.permission_read

  abbrev pub public_write_grant : GrantSignature
  public_write_grant = group_grant C.group_all_users C.permission_write

  abbrev pub log_delivery_write_grant : GrantSignature
  log_delivery_write_grant = group_grant C.group_log_delivery C.permission_write

  abbrev pub log_delivery_read_acp_grant : GrantSignature
  log_delivery_read_acp_grant = group_grant C.group_log_delivery C.permission_read_acp

  abbrev pub public_read_write_grants : String → List GrantSignature
  public_read_write_grants owner = owner_grant owner ∷ public_read_grant ∷ public_write_grant ∷ []

  abbrev pub log_delivery_grants : String → List GrantSignature
  log_delivery_grants owner =
      owner_grant owner ∷ log_delivery_write_grant ∷ log_delivery_read_acp_grant ∷ []

  -- The `switch` over an output with an owner.
  unfoldable pub flatten_grants : String → List Grant → Option String
  unfolding acl_matches
  flatten_grants owner grants =
      if acl_matches grants (owner_grant owner ∷ [])
      then some C.acl_private
      else if acl_matches grants (owner_grant owner ∷ public_read_grant ∷ [])
      then some C.acl_public_read
      else if acl_matches grants (public_read_write_grants owner)
      then some C.acl_public_read_write
      else if acl_matches grants (log_delivery_grants owner)
      then some C.acl_log_delivery_write
      else none

  -- `none` is the result `"", false`.
  unfoldable pub flatten_canned_acl : Option GetBucketAclOutput → Option String
  unfolding flatten_grants string_eq
  flatten_canned_acl none = none
  flatten_canned_acl (some output) =
      if output.owner_id == "" then none else flatten_grants output.owner_id output.grants
