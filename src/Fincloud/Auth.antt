-- ===== src/Fincloud/Auth.antt =====
-- internal/fincloud/session_coordinator.go and client.go: what identifies a session, and which
-- identities a client can be built for.
use dwh_v.Common.{ℕ, String, ◌≡◌, Bool, true, ◌&&◌, ◌||◌, not, arith, str_eq, eq_iff, ◌==◌}

pub record AuthContext : Type 0 where
  pub profile_id : ℕ
  pub revision : ℕ
  pub profile_name : String
  pub username : String
  pub password : String
  pub role_id : String
  pub location_id : String

-- What lies outside the package: Go's `strings.TrimSpace`, and whether the base URL, timeout and
-- transport of the configuration are accepted (`configuredHTTPClient` and `newPreAuthClient`, which
-- read no part of the identity).
pub record Config : Type 0 where
  pub trim_space : String → String
  pub endpoint_accepted : Bool

module _ (c : Config) where
  unfoldable pub invalid_auth_identifier : String → Bool
  invalid_auth_identifier value = str_eq value "" || not (str_eq value (c.trim_space value))

  -- `Validate` returns an error: `false` here.
  unfoldable pub validate : AuthContext → Bool
  validate a = not (
      a.profile_id == 0
      || a.revision == 0
      || str_eq a.profile_name ""
      || str_eq a.password ""
      || invalid_auth_identifier a.username
      || invalid_auth_identifier a.role_id
      || invalid_auth_identifier a.location_id)

  -- Whether `NewClient` succeeds for the identity.
  unfoldable pub client_accepted : AuthContext → Bool
  client_accepted a =
      not (
        str_eq a.password ""
        || invalid_auth_identifier a.username
        || invalid_auth_identifier a.location_id
        || invalid_auth_identifier a.role_id)
      && c.endpoint_accepted

unfoldable pub same_session_context : AuthContext → AuthContext → Bool
same_session_context a b =
    str_eq a.username b.username
    && str_eq a.password b.password
    && str_eq a.role_id b.role_id
    && str_eq a.location_id b.location_id

-- The four fields that `same_session_context` compares.
pub record SessionKey : Type 0 where
  pub username : String
  pub password : String
  pub role_id : String
  pub location_id : String

abbrev pub session_key : AuthContext → SessionKey
session_key a = record {
  username = a.username;
  password = a.password;
  role_id = a.role_id;
  location_id = a.location_id;
}

pub session_key_of_same :
    (a b : AuthContext) → same_session_context a b ≡ true → session_key a ≡ session_key b
unfolding same_session_context
session_key_of_same a b h = ground (
  arith,
  eq_iff a.username b.username,
  eq_iff a.password b.password,
  eq_iff a.role_id b.role_id,
  eq_iff a.location_id b.location_id,
)
