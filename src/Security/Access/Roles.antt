-- ===== src/Security/Access/Roles.antt =====
-- The legacy permission check.
use email_analysis_agent.Prelude.{◌≡◌, true, List, [], ◌∷◌, nat_eq, list_eq, arith}
use email_analysis_agent.Dict.Sweep.{member}
use email_analysis_agent.Text.{Text, codes}
use email_analysis_agent.Security.Access.{verify_rbac_permission, lower_all}

member-cons : (k j : Text) (ks : List Text) → member k ks ≡ true → member k (j ∷ ks) ≡ true
unfolding member
member-cons k j ks held = ground arith

-- In the legacy check a further role never takes a permission away.
pub verify_rbac_permission_mono :
    (lower : Text → Text) (role : Text) (roles : List Text) (permission : Text)
    → verify_rbac_permission lower roles permission ≡ true
    → verify_rbac_permission lower (role ∷ roles) permission ≡ true
unfolding verify_rbac_permission
verify_rbac_permission_mono lower role [] permission allowed = ground arith
verify_rbac_permission_mono lower role (r ∷ rs) permission allowed =
    let roles = lower_all lower (r ∷ rs) in
    ground (
      arith,
      member-cons (codes "admin") (lower role) roles,
      member-cons (codes "super_admin") (lower role) roles,
      member-cons (codes "analyst") (lower role) roles,
      member-cons (codes "soc_analyst") (lower role) roles,
    )
