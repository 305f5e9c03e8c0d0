-- ===== src/Security/Login/Passwords.antt =====
-- Which passwords are accepted.
use email_analysis_agent.Prelude.{
  ◌≡◌, refl, true, false, some, ◌++◌, ◌==◌, nat_eq, list_eq, Bool-cases, inl, inr, eq_self,
}
use email_analysis_agent.Text.{Text, codes, starts_with-append}
use email_analysis_agent.Uuid.{Uuid}
use email_analysis_agent.Security.Login.{
  User, Services, split, verify_parts, verify_password, password_matches,
}

abbrev prefix : Text
prefix = codes "pbkdf2_sha256$"

-- A user may log in: the account is neither suspended nor locked.
abbrev pub MayLogIn : User → Type 0
MayLogIn u = ((u.status == codes "SUSPENDED") ≡ false) × ((u.status == codes "LOCKED") ≡ false)

-- A stored hash is accepted as the password of its user.
pub password_matches-stored :
    (sv : Services) (user : User) (rest : Text)
    → user.password_hash ≡ some (prefix ++ rest)
    → password_matches sv (prefix ++ rest) user ≡ some true
unfolding password_matches verify_password
password_matches-stored sv user rest stored =
    let valid = verify_parts sv (prefix ++ rest) (split 36 (prefix ++ rest)) in
    rw
      (
        password_matches,
        stored,
        verify_password,
        starts_with-append prefix rest,
        eq_self (prefix ++ rest),
      )
      (elim (Bool-cases valid) [ inl valid_hash ↦ rw valid_hash refl | inr other ↦ rw other refl ])
