-- ===== src/Client/Access.antt =====
-- packages/client/src/internal/variable/operations.ts: who may read and write a variable. The flags are
-- those of node-opcua's AccessLevelFlag; an access level is a number of binary digits.
pub mod Granted
use Prim.Native.Nat.{bit_and}
use effect_opcua.Prelude.{
  ℕ, String, Option, none, some, List, [], ◌∷◌, Bool, true, not, ◌||◌, nat_eq, if◌then◌else◌,
}

pub record AccessLevelFlag : Type 0 where
  pub current_read : ℕ
  pub current_write : ℕ

pub data VariableCapability : Type 0 where
  read_capability write_capability : VariableCapability

-- VariableAccess: "read", "write" and "readWrite"
pub data VariableAccess : Type 0 where
  read write read_write : VariableAccess

-- What makeAccessDeniedError is given.
pub record AccessDenied : Type 0 where
  pub node_id : String
  pub requested_capability : VariableCapability
  pub access_level : ℕ
  pub user_access_level : Option ℕ

-- metadata.access of a variable
pub record MetadataAccess : Type 0 where
  pub readable : Bool
  pub writable : Bool
  pub user_readable : Bool
  pub user_writable : Bool

unfoldable pub variable_access_capabilities : VariableAccess → List VariableCapability
variable_access_capabilities read = read_capability ∷ []
variable_access_capabilities write = write_capability ∷ []
variable_access_capabilities read_write = read_capability ∷ write_capability ∷ []

module _ (flags : AccessLevelFlag) where
  abbrev pub flag_of : VariableCapability → ℕ
  flag_of read_capability = flags.current_read
  flag_of write_capability = flags.current_write

  unfoldable pub has_access : ℕ → VariableCapability → Bool
  has_access access_level capability = not (nat_eq (bit_and access_level (flag_of capability)) 0)

  -- userAccessLevel === undefined || hasAccess(userAccessLevel, capability)
  unfoldable pub has_user_access : Option ℕ → VariableCapability → Bool
  unfolding has_access
  has_user_access none capability = true
  has_user_access (some level) capability = has_access level capability

  unfoldable pub access_denied_error :
      String → VariableCapability → ℕ → Option ℕ → Option AccessDenied
  unfolding has_access has_user_access
  access_denied_error node_id capability level user =
      let has_node_access = has_access level capability in
      let granted_to_user = has_user_access user capability in
      if not has_node_access || not granted_to_user
      then some (record {
        node_id = node_id;
        requested_capability = capability;
        access_level = level;
        user_access_level = user;
      })
      else none

  -- `access` in variableMetadataFromRaw
  unfoldable pub metadata_access : ℕ → Option ℕ → MetadataAccess
  unfolding has_access has_user_access
  metadata_access level user = record {
    readable = has_access level read_capability;
    writable = has_access level write_capability;
    user_readable = has_user_access user read_capability;
    user_writable = has_user_access user write_capability;
  }

  -- The loop over the capabilities of a definition in `variable` of metadata/service.ts.
  unfoldable pub first_denied :
      String → ℕ → Option ℕ → List VariableCapability → Option AccessDenied
  unfolding access_denied_error
  first_denied node_id level user [] = none
  first_denied node_id level user (c ∷ cs) = elim (access_denied_error node_id c level user) [
    | none ↦ first_denied node_id level user cs
    | some e ↦ some e
  ]
