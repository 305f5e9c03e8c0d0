-- ===== src/Security/Tokens.antt =====
-- `TokenManager` and `TokenRevocationManager` of src/security/token_manager.py. PyJWT with the keys
-- of the key manager, and the reading of a UUID, are arguments; so are the identifiers of `uuid4` and
-- the clock reading, in whole seconds. The claims of a token are those of the issuer. A set is a
-- list. A token is of a type of its own, since only PyJWT looks into it.
pub mod Issued
pub mod Revoked
mod Tests
use email_analysis_agent.Prelude.{
  ℕ, ◌+◌, ◌*◌, ◌≡◌, Bool, true, false, not, ◌||◌, ◌&&◌, Option, none, some, List, [], ◌∷◌, ltb, leb,
  ◌==◌, Eq, nat_eq, list_eq, if◌then◌else◌, map,
}
use email_analysis_agent.Dict.Sweep.{member}
use email_analysis_agent.Text.{Text, codes}
use email_analysis_agent.Uuid
use email_analysis_agent.Uuid.{Uuid}
use email_analysis_agent.Security.Models.{
  Role, super_admin, admin, analyst, auditor, role_value, role_permissions, permission_value,
}

pub record Claims : Type 0 where
  pub sub : Text
  pub tenant_id : Text
  pub email : Text
  pub role : Text
  pub permissions : Option (List Text)
  pub token_type : Text
  pub jti : Text
  pub iat : ℕ
  pub nbf : ℕ
  pub exp : ℕ
  pub iss : Text

-- What `jwt.decode` may do: return the claims, raise `ExpiredSignatureError`, or raise another
-- `PyJWTError`.
pub data Verdict : Type 0 where
  verified : Claims → Verdict
  expired rejected : Verdict

-- `jwt.encode` under the private key, `jwt.decode` under the public key at a time and for an issuer,
-- and `UUID(text)`, `none` being its `ValueError`.
pub record Library (Token : Type 0) : Type 0 where
  pub encode : Claims → Token
  pub decode : ℕ → Text → Token → Verdict
  pub parse_uuid : Text → Option Uuid

pub record TokenManager : Type 0 where
  pub access_token_expire_seconds : ℕ
  pub refresh_token_expire_seconds : ℕ
  pub revoked_jtis : List Uuid

abbrev pub issuer : Text
issuer = codes "scamon.enterprise"

unfoldable pub new : ℕ → ℕ → TokenManager
new access_token_expire_minutes refresh_token_expire_days = record {
  access_token_expire_seconds = access_token_expire_minutes * 60;
  refresh_token_expire_seconds = refresh_token_expire_days * 24 * 3600;
  revoked_jtis = [];
}

-- `Role(text)`, `none` being its `ValueError`.
unfoldable pub role_of : Text → Option Role
unfolding role_value
role_of value =
    if value == role_value super_admin
    then some super_admin
    else if value == role_value admin
    then some admin
    else if value == role_value analyst
    then some analyst
    else if value == role_value auditor
    then some auditor
    else none

-- `[p.value for p in ROLE_PERMISSIONS_MAP.get(role, set())]`
unfoldable pub granted : Role → List Text
granted role = map permission_value (role_permissions role)

-- Whom a token is for.
pub record Subject : Type 0 where
  pub user_id : Uuid
  pub tenant_id : Uuid
  pub email : Text
  pub role : Role

-- The payloads.
unfoldable pub access_claims : TokenManager → ℕ → Uuid → Subject → Option (List Text) → Claims
access_claims m now jti s permissions = record {
  sub = Uuid.text s.user_id;
  tenant_id = Uuid.text s.tenant_id;
  email = s.email;
  role = role_value s.role;
  permissions = some (elim permissions [ none ↦ granted s.role | some given ↦ given ]);
  token_type = codes "access";
  jti = Uuid.text jti;
  iat = now;
  nbf = now;
  exp = now + m.access_token_expire_seconds;
  iss = issuer;
}

unfoldable pub refresh_claims : TokenManager → ℕ → Uuid → Subject → Claims
refresh_claims m now jti s = record {
  sub = Uuid.text s.user_id;
  tenant_id = Uuid.text s.tenant_id;
  email = s.email;
  role = role_value s.role;
  permissions = none;
  token_type = codes "refresh";
  jti = Uuid.text jti;
  iat = now;
  nbf = now;
  exp = now + m.refresh_token_expire_seconds;
  iss = issuer;
}

unfoldable pub create_access_token :
    {Token : Type 0}
    → Library Token
    → TokenManager
    → ℕ
    → Uuid
    → Subject
    → Option (List Text)
    → Token × Uuid × ℕ
create_access_token lib m now jti s permissions =
    (lib.encode (access_claims m now jti s permissions), jti, m.access_token_expire_seconds)

unfoldable pub create_refresh_token :
    {Token : Type 0} → Library Token → TokenManager → ℕ → Uuid → Subject → Token × Uuid × ℕ
create_refresh_token lib m now jti s =
    (lib.encode (refresh_claims m now jti s), jti, m.refresh_token_expire_seconds)

pub record TokenPair (Token : Type 0) : Type 0 where
  pub access_token : Token
  pub refresh_token : Token
  pub token_type : Text
  pub expires_in : ℕ

unfoldable pub create_token_pair :
    {Token : Type 0}
    → Library Token
    → TokenManager
    → ℕ
    → ℕ
    → Uuid
    → Uuid
    → Subject
    → Option (List Text)
    → TokenPair Token
unfolding create_access_token create_refresh_token
create_token_pair lib m now now' access_jti refresh_jti s permissions =
    let (access_tok, _, expires_in) = create_access_token lib m now access_jti s permissions in
    let (refresh_tok, _, _) = create_refresh_token lib m now' refresh_jti s in
    record {
      access_token = access_tok;
      refresh_token = refresh_tok;
      token_type = codes "Bearer";
      expires_in = expires_in;
    }

pub record TokenPayload : Type 0 where
  pub sub : Uuid
  pub tenant_id : Uuid
  pub email : Text
  pub role : Role
  pub permissions : List Text
  pub token_type : Text
  pub jti : Uuid
  pub exp : ℕ
  pub iat : ℕ

-- What `decode_token` may do: return a payload, raise `TokenExpiredError` or `InvalidTokenError`, or
-- let the `ValueError` of a UUID or a role through.
pub data Decoded : Type 0 where
  accepts : TokenPayload → Decoded
  token_expired invalid_token value_error : Decoded

-- `is_revoked`
unfoldable pub is_revoked : TokenManager → Uuid → Bool
unfolding member
is_revoked m jti = member jti m.revoked_jtis

-- The permissions of a payload: those of the role where an access token lists none.
unfoldable pub permissions_of : Claims → Text → Role → List Text
unfolding granted
permissions_of c expected_type role =
    let listed : List Text = elim c.permissions [ none ↦ [] | some given ↦ given ] in
    if listed == [] && expected_type == codes "access" then granted role else listed

-- From the check of the role on.
unfoldable pub payload_of : {Token : Type 0} → Library Token → Claims → Text → Uuid → Decoded
unfolding role_of permissions_of
payload_of lib c expected_type jti = elim (role_of c.role) [
  | none ↦ value_error
  | some role ↦ elim (lib.parse_uuid c.sub) [
    | none ↦ value_error
    | some sub ↦ elim (lib.parse_uuid c.tenant_id) [
      | none ↦ value_error
      | some tenant_id ↦ accepts record {
        sub = sub;
        tenant_id = tenant_id;
        email = c.email;
        role = role;
        permissions = permissions_of c expected_type role;
        token_type = c.token_type;
        jti = jti;
        exp = c.exp;
        iat = c.iat;
      }
    ]
  ]
]

-- From the check of the type on.
unfoldable pub check_claims :
    {Token : Type 0} → Library Token → TokenManager → Text → Claims → Decoded
unfolding payload_of is_revoked
check_claims lib m expected_type c =
    if not (c.token_type == expected_type) then invalid_token else elim (lib.parse_uuid c.jti) [
      | none ↦ value_error
      | some jti ↦ if is_revoked m jti then invalid_token else payload_of lib c expected_type jti
    ]

unfoldable pub decoded : {Token : Type 0} → Library Token → TokenManager → Text → Verdict → Decoded
unfolding check_claims
decoded lib m expected_type expired = token_expired
decoded lib m expected_type rejected = invalid_token
decoded lib m expected_type (verified c) = check_claims lib m expected_type c

unfoldable pub decode_token :
    {Token : Type 0} → Library Token → ℕ → TokenManager → Token → Text → Decoded
unfolding decoded
decode_token lib now m token expected_type =
    decoded lib m expected_type (lib.decode now issuer token)

unfoldable pub revoke_token : TokenManager → Uuid → TokenManager
revoke_token m jti =
    if member jti m.revoked_jtis then m else record m { revoked_jtis = jti ∷ m.revoked_jtis }
