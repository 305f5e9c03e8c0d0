-- ===== src/Security/Access.antt =====
-- `AuthorizationService` of src/security/rbac.py and the legacy helpers below it. An
-- `AuthorizationError` is the answer `false`; `str.lower` is a parameter.
pub mod Isolation
pub mod Roles
mod Tests
use email_analysis_agent.Prelude.{
  ℕ, Bool, true, false, not, ◌&&◌, ◌||◌, Option, none, some, List, [], ◌∷◌, if◌then◌else◌, ◌==◌, Eq,
  nat_eq, list_eq, map,
}
use email_analysis_agent.Dict.Sweep.{member}
use email_analysis_agent.Text.{Text, codes}
use email_analysis_agent.Uuid.{Uuid}
use email_analysis_agent.Security.Models.{
  Role, super_admin, role_eq, role_value, Permission, permission_value, AuthenticatedUser,
}

pub record PermissionDenied : Type 0 where
  pub tenant_id : Uuid
  pub user_id : Uuid
  pub required_permission : Text
  pub resource : Text

-- Whether the call returns, and the events that it publishes if the service has a publisher.
pub authorize_permission : Bool → AuthenticatedUser → Text → Text → Bool × List PermissionDenied
authorize_permission has_publisher user required_permission resource =
    if member required_permission user.permissions
    then (true, [])
    else (let denied : PermissionDenied = record {
      tenant_id = user.tenant_id;
      user_id = user.user_id;
      required_permission = required_permission;
      resource = resource;
    } in
        (false, if has_publisher then denied ∷ [] else []))

pub authorize_role : AuthenticatedUser → List Text → Bool
unfolding role_value
authorize_role user allowed_roles = member (role_value user.role) allowed_roles

pub verify_tenant_isolation : AuthenticatedUser → Uuid → Bool
verify_tenant_isolation user resource_tenant_id =
    if user.role == super_admin
    then true
    else if not (user.tenant_id == resource_tenant_id)
    then false
    else true

module _ (lower : Text → Text) where
  abbrev pub lower_all : List Text → List Text
  lower_all roles = map lower roles

  -- `perm_lower in (...)`
  pub is_analyst_permission : Text → Bool
  is_analyst_permission permission = member permission (
      codes "analyst"
      ∷ codes "investigation:read"
      ∷ codes "investigation:create"
      ∷ codes "read"
      ∷ codes "create"
      ∷ codes "memory:search"
      ∷ codes "memory:read"
      ∷ [])

  -- The legacy helper. With no roles it answers `false` before it looks at them.
  pub verify_rbac_permission : List Text → Text → Bool
  unfolding is_analyst_permission
  verify_rbac_permission [] required_permission = false
  verify_rbac_permission (r ∷ rs) required_permission =
      let roles_lower = lower_all (r ∷ rs) in
      if member (codes "admin") roles_lower || member (codes "super_admin") roles_lower
      then true
      else if member (codes "analyst") roles_lower || member (codes "soc_analyst") roles_lower
      then is_analyst_permission (lower required_permission)
      else false

  -- The legacy helper of the same name as the method; `None` and no roles are an empty list.
  pub legacy_tenant_isolation : Text → Text → List Text → Bool
  legacy_tenant_isolation user_org_id resource_org_id user_roles =
      if member (codes "super_admin") (lower_all user_roles)
      then true
      else user_org_id == resource_org_id
