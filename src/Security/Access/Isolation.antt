-- ===== src/Security/Access/Isolation.antt =====
-- The method and the legacy helper for tenant isolation agree.
use email_analysis_agent.Prelude.{
  ◌≡◌, refl, true, false, not, [], ◌∷◌, if◌then◌else◌, ◌==◌, nat_eq, nat_beq_iff, list_eq,
  list_beq_iff, arith,
}
use email_analysis_agent.Dict.Sweep.{member}
use email_analysis_agent.Text.{Text, codes}
use email_analysis_agent.Uuid
use email_analysis_agent.Uuid.{Uuid, InRange}
use email_analysis_agent.Security.Models.{
  Role, super_admin, admin, analyst, auditor, role_eq, role_value, AuthenticatedUser,
}
use email_analysis_agent.Security.Access.{verify_tenant_isolation, legacy_tenant_isolation}

-- `str.lower` of a role's value.
abbrev pub lower_value : Role → Text
lower_value super_admin = codes "super_admin"
lower_value admin = codes "admin"
lower_value analyst = codes "analyst"
lower_value auditor = codes "auditor"

text-injective : (a b : Uuid) → InRange a → InRange b → Uuid.text a ≡ Uuid.text b → a ≡ b
text-injective a b ha hb same =
    let nothing : Text = [] in
    (Uuid.text-append-injective a b {rest = nothing} {rest' = nothing} ha hb (rw same refl)).0

text-beq : (a b : Uuid) → InRange a → InRange b → (Uuid.text a == Uuid.text b) ≡ (a == b)
text-beq a b ha hb =
    ground
      (arith, list_beq_iff (Uuid.text a) (Uuid.text b), text-injective a b ha hb, nat_beq_iff a b)

-- For identifiers in range, and a `lower` that lowers the values of the four roles, the method
-- decides as the legacy helper does on the texts of the identifiers and on the user's role.
pub verify_tenant_isolation-eq-legacy :
    (lower : Text → Text) (user : AuthenticatedUser) (resource : Uuid)
    → ((r : Role) → lower (role_value r) ≡ lower_value r)
    → InRange user.tenant_id
    → InRange resource
    → verify_tenant_isolation user resource
      ≡ legacy_tenant_isolation lower
          (Uuid.text user.tenant_id)
          (Uuid.text resource)
          (role_value user.role ∷ [])
unfolding verify_tenant_isolation legacy_tenant_isolation member
verify_tenant_isolation-eq-legacy lower user resource lowers hu hr =
    rw (lowers user.role, text-beq user.tenant_id resource hu hr) (by_role user.role)
  where
    by_role :
        (r : Role)
        → (if r == super_admin
            then true
            else if not (user.tenant_id == resource)
            then false
            else true)
          ≡ (if (if lower_value r == codes "super_admin" then true else false)
              then true
              else user.tenant_id == resource)
    by_role super_admin = refl
    by_role admin = ground arith
    by_role analyst = ground arith
    by_role auditor = ground arith
