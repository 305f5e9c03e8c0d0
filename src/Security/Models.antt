-- ===== src/Security/Models.antt =====
-- Roles, permissions and the authenticated user of src/security/models.py.
use email_analysis_agent.Prelude.{Bool, true, false, List, [], ◌∷◌, ◌≡◌, ◌↔◌, arith, Eq}
use email_analysis_agent.Text.{Text, codes}
use email_analysis_agent.Uuid.{Uuid}

pub data Role : Type 0 where
  super_admin admin analyst auditor : Role

pub data Permission : Type 0 where
  read_incident remediate_incident manage_policy manage_users view_audit : Permission

abbrev pub role_beq : Role → Role → Bool
role_beq super_admin super_admin = true
role_beq admin admin = true
role_beq analyst analyst = true
role_beq auditor auditor = true
role_beq _ _ = false

pub role_beq_iff : (a b : Role) → (role_beq a b ≡ true) ↔ (a ≡ b)
role_beq_iff a b = ground arith

instance abbrev pub role_eq : Eq Role
role_eq = record { same = role_beq; same_iff = role_beq_iff }

-- `Role.value`
unfoldable pub role_value : Role → Text
role_value super_admin = codes "SUPER_ADMIN"
role_value admin = codes "ADMIN"
role_value analyst = codes "ANALYST"
role_value auditor = codes "AUDITOR"

-- `Permission.value`
unfoldable pub permission_value : Permission → Text
permission_value read_incident = codes "READ_INCIDENT"
permission_value remediate_incident = codes "REMEDIATE_INCIDENT"
permission_value manage_policy = codes "MANAGE_POLICY"
permission_value manage_users = codes "MANAGE_USERS"
permission_value view_audit = codes "VIEW_AUDIT"

-- `ROLE_PERMISSIONS_MAP`, each set as a list.
unfoldable pub role_permissions : Role → List Permission
role_permissions super_admin =
    read_incident ∷ remediate_incident ∷ manage_policy ∷ manage_users ∷ view_audit ∷ []
role_permissions admin =
    read_incident ∷ remediate_incident ∷ manage_policy ∷ manage_users ∷ view_audit ∷ []
role_permissions analyst = read_incident ∷ remediate_incident ∷ view_audit ∷ []
role_permissions auditor = read_incident ∷ view_audit ∷ []

pub record AuthenticatedUser : Type 0 where
  pub user_id : Uuid
  pub tenant_id : Uuid
  pub role : Role
  pub permissions : List Text
