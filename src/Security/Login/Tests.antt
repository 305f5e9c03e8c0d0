-- ===== src/Security/Login/Tests.antt =====
-- The theorems on logins and sessions at inputs that meet their conditions.
use email_analysis_agent.Prelude.{
  ℕ, ◌+◌, ◌-◌, ap, ◌≡◌, refl, true, Option, none, some, List, [], ◌∷◌, ◌++◌, arith, if◌then◌else◌,
  ◌==◌, nat_eq, list_eq,
}
use email_analysis_agent.Text.{Text, codes, count}
use email_analysis_agent.Uuid
use email_analysis_agent.Uuid.{Uuid}
use email_analysis_agent.Security.Models.{analyst}
use email_analysis_agent.Security.Tokens.{
  Library, TokenManager, new, Decoded, TokenPayload, decode_token, Claims, Verdict, issuer, Subject,
  TokenPair, refresh_claims, access_claims, create_token_pair, create_access_token,
  create_refresh_token, revoke_token,
}
use email_analysis_agent.Security.Tokens.Issued.{verdict}
use email_analysis_agent.Security.Login.{
  Tenant, User, Services, verify_password, hash_password, refreshed, refused, refresh_session,
  logout,
}
use email_analysis_agent.Security.Login.Hashes.{verify_password-hash_password}
use email_analysis_agent.Security.Login.Sessions.{refresh_session-once}

-- Tokens are their claims, and the identifiers in use are read back.
abbrev same_claims : Claims → Claims
same_claims c = c

abbrev decode_claims : ℕ → Text → Claims → Verdict
decode_claims t iss c = verdict c t iss

abbrev read_uuid : Text → Option Uuid
read_uuid s =
    if s == Uuid.text 1
    then some 1
    else if s == Uuid.text 2
    then some 2
    else if s == Uuid.text 3
    then some 3
    else none

abbrev library : Library Claims
library = record { encode = same_claims; decode = decode_claims; parse_uuid = read_uuid }

library_documented :
    (c : Claims) (t : ℕ) → library.decode t issuer (library.encode c) ≡ verdict c t issuer
library_documented c t = refl

abbrev tenant : Tenant
tenant = record { id = 2; status = codes "ACTIVE" }

abbrev user : User
user = record {
  id = 1;
  tenant_id = 2;
  email = codes "a@b";
  display_name = codes "A";
  role = codes "ANALYST";
  status = codes "ACTIVE";
  password_hash = none;
}

abbrev stored_user : User
stored_user = record user { password_hash = some (codes "pbkdf2_sha256$" ++ codes "1$$") }

abbrev the_tenant : Text → Option Tenant
the_tenant d = some tenant

abbrev tenant_by_id : Uuid → Option Tenant
tenant_by_id id = some tenant

abbrev first_users : ℕ → List User
first_users n = user ∷ []

abbrev the_user : Uuid → Text → Option User
the_user id email = some user

abbrev same_text : Text → Text
same_text s = s

abbrev count_of : Text → Option ℕ
count_of s = some 100000

-- A byte is printed as one character above the dollar sign.
abbrev hex_of : List ℕ → Text
hex_of [] = []
hex_of (b ∷ bs) = (b + 37) ∷ hex_of bs

abbrev bytes_below : Text → List ℕ
bytes_below [] = []
bytes_below (c ∷ s) = (c - 37) ∷ bytes_below s

abbrev bytes_of : Text → Option (List ℕ)
bytes_of s = some (bytes_below s)

abbrev key_of : Text → List ℕ → ℕ → List ℕ
key_of password salt n = password ++ salt

abbrev services : Services
services = record {
  get_by_domain = the_tenant;
  get_by_id = tenant_by_id;
  list_all = first_users;
  get_by_email = the_user;
  lower = same_text;
  int = count_of;
  fromhex = bytes_of;
  hex = hex_of;
  pbkdf2_hmac = key_of;
}

bytes_below-hex_of : (bytes : List ℕ) → bytes_below (hex_of bytes) ≡ bytes
bytes_below-hex_of [] = refl
bytes_below-hex_of (b ∷ bs) = ground (arith, bytes_below-hex_of bs)

read_back : (bytes : List ℕ) → services.fromhex (services.hex bytes) ≡ some bytes
read_back bytes = ap some (bytes_below-hex_of bytes)

no_dollar : (bytes : List ℕ) → count 36 (services.hex bytes) ≡ 0
unfolding count
no_dollar [] = refl
no_dollar (b ∷ bs) = ground (arith, no_dollar bs)

verify_password-hash_password_example :
    verify_password services (codes "q") (hash_password services (7 ∷ []) (codes "p"))
    ≡ some (
        services.pbkdf2_hmac (codes "q") (7 ∷ []) 100000
        == services.pbkdf2_hmac (codes "p") (7 ∷ []) 100000)
verify_password-hash_password_example =
    verify_password-hash_password services (7 ∷ []) (codes "p") (codes "q") refl read_back no_dollar

abbrev manager : TokenManager
manager = new 30 7

abbrev subject : Subject
subject = record { user_id = 1; tenant_id = 2; email = codes "a@b"; role = analyst }

abbrev refresh_token_claims : Claims
refresh_token_claims = (create_refresh_token library manager 100 1 subject).0

abbrev access_token_claims : Claims
access_token_claims = (create_access_token library manager 100 1 subject none).0

documented_at :
    (c : Claims) (u : ℕ) → library.decode u issuer (library.encode c) ≡ verdict c u issuer
documented_at c u = refl

abbrev pair : TokenPair Claims
pair = create_token_pair library manager 200 200 3 3 subject none

refreshed_once :
    refresh_session library manager 200 3 3 (library.encode refresh_token_claims)
    ≡ (revoke_token manager 1, refreshed pair)
unfolding refresh_session decode_token verdict create_refresh_token refresh_claims new Uuid.text
    create_token_pair access_claims revoke_token
refreshed_once = refl

refresh_session-once_example :
    (d : Decoded) × (refresh_session library
        (revoke_token manager 1)
        300
        3
        3
        (library.encode refresh_token_claims)
      ≡ (revoke_token manager 1, refused d))
refresh_session-once_example =
    refresh_session-once library manager (revoke_token manager 1) 200 300 3 3 3 3
      refresh_token_claims pair (documented_at refresh_token_claims) refreshed_once

abbrev payload : TokenPayload
payload = record {
  sub = 1;
  tenant_id = 2;
  email = codes "a@b";
  role = analyst;
  permissions = [];
  token_type = codes "access";
  jti = 1;
  exp = 1900;
  iat = 100;
}

logged_out :
    logout library manager 200 (library.encode access_token_claims) ≡ (revoke_token manager 1, true)
unfolding logout decode_token verdict create_access_token access_claims new Uuid.text
logged_out = refl
