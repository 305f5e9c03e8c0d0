-- ===== src/Security/Login.antt =====
-- `AuthenticationService` of src/security/auth_service.py with `PasswordHasher` of
-- src/security/password.py. The repositories, PBKDF2 for a count of at least 1 and the reading of
-- numbers are arguments, and so are the identifiers of new tokens and the clock reading, which is one
-- for each call. Publishing never raises; of the events only the reason of a failed login is kept.
pub mod Hashes
pub mod Passwords
pub mod Sessions
mod Tests
use email_analysis_agent.Prelude.{
  ℕ, ◌≡◌, Bool, true, false, not, ◌||◌, ◌&&◌, Option, none, some, List, [], ◌∷◌, ◌++◌, ltb, leb,
  ◌==◌, Eq, nat_eq, list_eq, if◌then◌else◌, nat_beq,
}
use email_analysis_agent.Text.{Text, codes, starts_with}
use email_analysis_agent.Uuid.{Uuid}
use email_analysis_agent.Security.Models.{Role, analyst}
use email_analysis_agent.Security.Tokens.{
  Library, TokenManager, Subject, TokenPair, TokenPayload, Decoded, accepts, token_expired,
  invalid_token, value_error, granted, role_of, create_token_pair, decode_token, revoke_token,
}

pub record Tenant : Type 0 where
  pub id : Uuid
  pub status : Text

-- A user as the code reads it; `password_hash` is `none` where `hasattr` says no.
pub record User : Type 0 where
  pub id : Uuid
  pub tenant_id : Uuid
  pub email : Text
  pub display_name : Text
  pub role : Text
  pub status : Text
  pub password_hash : Option Text

-- What the service calls: the queries, `str.lower`, `int` and `bytes.fromhex` with `none` for a
-- `ValueError`, `bytes.hex`, and `hashlib.pbkdf2_hmac` of a password, a salt and a count.
pub record Services : Type 0 where
  pub get_by_domain : Text → Option Tenant
  pub get_by_id : Uuid → Option Tenant
  pub list_all : ℕ → List User
  pub get_by_email : Uuid → Text → Option User
  pub lower : Text → Text
  pub int : Text → Option ℕ
  pub fromhex : Text → Option (List ℕ)
  pub hex : List ℕ → Text
  pub pbkdf2_hmac : Text → List ℕ → ℕ → List ℕ

pub all_ascii : Text → Bool
all_ascii [] = true
all_ascii (c ∷ s) = ltb c 128 && all_ascii s

-- `hmac.compare_digest` of two texts: a `TypeError`, the answer `none`, if one is not ASCII.
pub compare_digest : Text → Text → Option Bool
unfolding all_ascii
compare_digest a b = if all_ascii a && all_ascii b then some (a == b) else none

-- `hash_password` with the salt that `os.urandom` makes, and `ITERATIONS` as a text.
pub hash_password : Services → List ℕ → Text → Text
hash_password sv salt password =
    codes "pbkdf2_sha256$"
    ++ (codes "100000" ++ 36 ∷ (sv.hex salt ++ 36 ∷ sv.hex (sv.pbkdf2_hmac password salt 100000)))

-- `s.split(c)`
unfoldable pub split : ℕ → Text → List Text
split c [] = [] ∷ []
split c (d ∷ s) =
    let parts = split c s in
    if nat_beq c d
    then [] ∷ parts
    else elim parts [ [] ↦ (d ∷ []) ∷ [] | part ∷ rest ↦ (d ∷ part) ∷ rest ]

-- The `try` block of `verify_password`, whose exceptions are a `False`.
pub verify_parts : Services → Text → List Text → Bool
verify_parts sv password (_ ∷ count ∷ salt ∷ key ∷ []) = elim (sv.int count) [
  | none ↦ false
  | some iterations ↦ elim (sv.fromhex salt) [
    | none ↦ false
    | some salt_bytes ↦ elim (sv.fromhex key) [
      | none ↦ false
      | some target_key ↦ sv.pbkdf2_hmac password salt_bytes iterations == target_key
    ]
  ]
]
verify_parts sv password _ = false

-- `none` is an exception that leaves the method.
pub verify_password : Services → Text → Text → Option Bool
unfolding compare_digest verify_parts
verify_password sv password [] = some false
verify_password sv password (c ∷ s) =
    if not (starts_with (codes "pbkdf2_sha256$") (c ∷ s))
    then compare_digest password (c ∷ s)
    else some (verify_parts sv password (split 36 (c ∷ s)))

-- `password_hash` and the fallback below it.
pub password_matches : Services → Text → User → Option Bool
unfolding verify_password
password_matches sv password user = elim user.password_hash [
  | none ↦ verify_password sv password password
  | some stored ↦ elim (verify_password sv password stored) [
    | none ↦ none
    | some valid ↦ some (valid || password == stored)
  ]
]

pub find_user : Services → Text → List User → Option User
find_user sv email [] = none
find_user sv email (u ∷ us) =
    if sv.lower u.email == sv.lower email then some u else find_user sv email us

-- The tenant of the first step; an empty domain is none.
pub resolve_tenant : Services → Text → Option Text → Option Tenant
unfolding find_user
resolve_tenant sv email (some (c ∷ domain)) = sv.get_by_domain (c ∷ domain)
resolve_tenant sv email _ = elim (find_user sv email (sv.list_all 10)) [
  | none ↦ none
  | some u ↦ sv.get_by_id u.tenant_id
]

pub data Reason : Type 0 where
  invalid_tenant user_not_found wrong_status password_failed : Reason

pub record LoggedIn (Token : Type 0) : Type 0 where
  pub user_id : Uuid
  pub tenant_id : Uuid
  pub email : Text
  pub display_name : Text
  pub role : Role
  pub permissions : List Text
  pub tokens : TokenPair Token

-- `AuthenticationError` and `AccountLockedError` with the reason of the published event, or the
-- `TypeError` of a comparison.
pub data LoginResult (Token : Type 0) : Type 0 where
  logged_in : LoggedIn Token → LoginResult Token
  authentication_error account_locked : Reason → LoginResult Token
  type_error : LoginResult Token

-- From the fourth step on.
pub issue :
    {Token : Type 0}
    → Library Token
    → TokenManager
    → ℕ
    → Uuid
    → Uuid
    → Tenant
    → User
    → LoggedIn Token
issue lib m now access_jti refresh_jti tenant user =
    let role_enum : Role = elim (role_of user.role) [ none ↦ analyst | some r ↦ r ] in
    let s : Subject = record {
      user_id = user.id;
      tenant_id = tenant.id;
      email = user.email;
      role = role_enum;
    } in
    record {
      user_id = user.id;
      tenant_id = tenant.id;
      email = user.email;
      display_name = user.display_name;
      role = role_enum;
      permissions = granted role_enum;
      tokens = create_token_pair lib m now now access_jti refresh_jti s (some (granted role_enum));
    }

-- From the second step on.
pub authenticate_user :
    {Token : Type 0}
    → Library Token
    → Services
    → TokenManager
    → ℕ
    → Uuid
    → Uuid
    → Tenant
    → Text
    → Text
    → LoginResult Token
unfolding password_matches issue
authenticate_user lib sv m now access_jti refresh_jti tenant email password =
    elim (sv.get_by_email tenant.id email) [
      | none ↦ authentication_error user_not_found
      | some user ↦
          if user.status == codes "SUSPENDED" || user.status == codes "LOCKED"
          then account_locked wrong_status
          else elim (password_matches sv password user) [
            | none ↦ type_error
            | some false ↦ authentication_error password_failed
            | some true ↦ logged_in (issue lib m now access_jti refresh_jti tenant user)
          ]
    ]

pub authenticate_credentials :
    {Token : Type 0}
    → Library Token
    → Services
    → TokenManager
    → ℕ
    → Uuid
    → Uuid
    → Text
    → Text
    → Option Text
    → LoginResult Token
unfolding resolve_tenant authenticate_user
authenticate_credentials lib sv m now access_jti refresh_jti email password tenant_domain =
    elim (resolve_tenant sv email tenant_domain) [
      | none ↦ authentication_error invalid_tenant
      | some tenant ↦
          if not (tenant.status == codes "ACTIVE")
          then authentication_error invalid_tenant
          else authenticate_user lib sv m now access_jti refresh_jti tenant email password
    ]

-- The tokens, or what `decode_token` raised.
pub data Refreshed (Token : Type 0) : Type 0 where
  refreshed : TokenPair Token → Refreshed Token
  refused : Decoded → Refreshed Token

pub rotate :
    {Token : Type 0}
    → Library Token
    → TokenManager
    → ℕ
    → Uuid
    → Uuid
    → TokenPayload
    → TokenPair Token
rotate lib m now access_jti refresh_jti p =
    let s : Subject = record {
      user_id = p.sub;
      tenant_id = p.tenant_id;
      email = p.email;
      role = p.role;
    } in
    create_token_pair lib m now now access_jti refresh_jti s none

-- The manager after the call, and the answer. The new access token is decoded for the event.
pub refresh_session :
    {Token : Type 0}
    → Library Token
    → TokenManager
    → ℕ
    → Uuid
    → Uuid
    → Token
    → TokenManager × Refreshed Token
unfolding rotate
refresh_session lib m now access_jti refresh_jti refresh_token =
    elim (decode_token lib now m refresh_token (codes "refresh")) [
      | accepts p ↦
          let m' = revoke_token m p.jti in
          let tokens = rotate lib m' now access_jti refresh_jti p in
          (
            m',
            elim (decode_token lib now m' tokens.access_token (codes "access")) [
              | accepts _ ↦ refreshed tokens
              | failure ↦ refused failure
            ],
          )
      | failure ↦ (m, refused failure)
    ]

-- The manager after the call, and whether it returns.
pub logout : {Token : Type 0} → Library Token → TokenManager → ℕ → Token → TokenManager × Bool
logout lib m now access_token = elim (decode_token lib now m access_token (codes "access")) [
  | accepts p ↦ (revoke_token m p.jti, true)
  | _ ↦ (m, false)
]
