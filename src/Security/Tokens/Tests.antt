-- ===== src/Security/Tokens/Tests.antt =====
-- The theorems on tokens at inputs that meet their conditions.
use email_analysis_agent.Prelude.{
  ℕ, ◌+◌, ◌≡◌, refl, Option, none, some, [], if◌then◌else◌, ◌==◌, nat_eq, list_eq,
}
use email_analysis_agent.Text.{Text, codes}
use email_analysis_agent.Uuid
use email_analysis_agent.Uuid.{Uuid, InRange}
use email_analysis_agent.Security.Models.{analyst}
use email_analysis_agent.Security.Tokens.{
  Library, TokenManager, new, TokenPayload, accepts, invalid_token, is_revoked, decode_token,
  Claims, Verdict, issuer, Subject, create_access_token,
}
use email_analysis_agent.Security.Tokens.Issued.{
  verdict, in_its_time, effective, create_access_token-decode_token,
}

-- Tokens are their claims, and the two identifiers in use are read back.
abbrev same_claims : Claims → Claims
same_claims c = c

abbrev decode_claims : ℕ → Text → Claims → Verdict
decode_claims t iss c = verdict c t iss

abbrev read_uuid : Text → Option Uuid
read_uuid s = if s == Uuid.text 1 then some 1 else if s == Uuid.text 2 then some 2 else none

abbrev library : Library Claims
library = record { encode = same_claims; decode = decode_claims; parse_uuid = read_uuid }

library_documented :
    (c : Claims) (t : ℕ) → library.decode t issuer (library.encode c) ≡ verdict c t issuer
library_documented c t = refl

read_one : library.parse_uuid (Uuid.text 1) ≡ some 1
unfolding Uuid.text
read_one = refl

read_two : library.parse_uuid (Uuid.text 2) ≡ some 2
unfolding Uuid.text
read_two = refl

abbrev subject : Subject
subject = record { user_id = 1; tenant_id = 2; email = codes "a@b"; role = analyst }

abbrev manager : TokenManager
manager = new 30 7

create_access_token-decode_token_example :
    let (token, _, life) = create_access_token library manager 100 1 subject (some []) in
    decode_token library 200 manager token (codes "access")
    ≡ in_its_time 100 life 200 (
        if is_revoked manager 1
        then invalid_token
        else accepts record {
          sub = 1;
          tenant_id = 2;
          email = codes "a@b";
          role = analyst;
          permissions = effective (some []) analyst;
          token_type = codes "access";
          jti = 1;
          exp = 100 + life;
          iat = 100;
        })
create_access_token-decode_token_example =
    create_access_token-decode_token library manager manager 100 200 1 subject (some [])
      library_documented read_one read_one read_two

abbrev payload : TokenPayload
payload = record {
  sub = 1;
  tenant_id = 2;
  email = codes "a@b";
  role = analyst;
  permissions = effective none analyst;
  token_type = codes "access";
  jti = 1;
  exp = 1900;
  iat = 100;
}
