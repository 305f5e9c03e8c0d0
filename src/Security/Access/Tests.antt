-- ===== src/Security/Access/Tests.antt =====
-- The theorems on access control at inputs that meet their conditions.
use email_analysis_agent.Prelude.{◌+◌, ◌≡◌, refl, true, ◌&&◌, leb, if◌then◌else◌, [], ◌∷◌}
use email_analysis_agent.Dict.Sweep.{member}
use email_analysis_agent.Text.{Text, codes}
use email_analysis_agent.Security.Models.{
  Role, super_admin, admin, analyst, auditor, role_value, AuthenticatedUser,
}
use email_analysis_agent.Security.Access.{verify_rbac_permission}
use email_analysis_agent.Security.Access.Isolation.{lower_value}

-- Lowers the letters from A to Z, and leaves every other character.
abbrev lower : Text → Text
lower [] = []
lower (c ∷ s) = (if leb 65 c && leb c 90 then c + 32 else c) ∷ lower s

lowers : (r : Role) → lower (role_value r) ≡ lower_value r
unfolding role_value
lowers super_admin = refl
lowers admin = refl
lowers analyst = refl
lowers auditor = refl

abbrev user : AuthenticatedUser
user = record { user_id = 3; tenant_id = 1; role = analyst; permissions = [] }

may_read : verify_rbac_permission lower (codes "ANALYST" ∷ []) (codes "read") ≡ true
unfolding verify_rbac_permission member
may_read = refl
