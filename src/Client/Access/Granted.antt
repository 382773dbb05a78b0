-- ===== src/Client/Access/Granted.antt =====
-- The access checks and the metadata of a variable agree.
use effect_opcua.Prelude.{ℕ, String, Option, none, Bool, true, ◌&&◌, ◌≡◌, ◌↔◌, arith}
use effect_opcua.Client.Access.{
  AccessLevelFlag, VariableCapability, read_capability, write_capability, VariableAccess, read,
  write, read_write, MetadataAccess, variable_access_capabilities, access_denied_error,
  metadata_access, first_denied,
}

-- A capability is granted where the node and the user have it.
abbrev pub grants : MetadataAccess → VariableCapability → Bool
grants a read_capability = a.readable && a.user_readable
grants a write_capability = a.writable && a.user_writable

-- What the access of a definition asks for.
abbrev pub grants_access : MetadataAccess → VariableAccess → Bool
grants_access a read = grants a read_capability
grants_access a write = grants a write_capability
grants_access a read_write = grants a read_capability && grants a write_capability

module _ (flags : AccessLevelFlag) (node_id : String) (level : ℕ) (user : Option ℕ) where
  access_denied_error_iff :
      (c : VariableCapability)
      → (access_denied_error flags node_id c level user ≡ none)
        ↔ (grants (metadata_access flags level user) c ≡ true)
  unfolding access_denied_error metadata_access
  access_denied_error_iff read_capability = ground arith
  access_denied_error_iff write_capability = ground arith

  -- The loop over the capabilities of a variable definition finds no AccessDenied error exactly where
  -- the metadata of the variable says that the node and the user have every access that the definition
  -- declares.
  pub first_denied_iff :
      (access : VariableAccess)
      → (first_denied flags node_id level user (variable_access_capabilities access) ≡ none)
        ↔ (grants_access (metadata_access flags level user) access ≡ true)
  unfolding first_denied variable_access_capabilities
  first_denied_iff read = ground (arith, access_denied_error_iff read_capability)
  first_denied_iff write = ground (arith, access_denied_error_iff write_capability)
  first_denied_iff read_write =
      ground
        (arith, access_denied_error_iff read_capability, access_denied_error_iff write_capability)
