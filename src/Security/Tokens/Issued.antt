-- ===== src/Security/Tokens/Issued.antt =====
-- What becomes of a token that the manager itself has issued. PyJWT is taken to do what its
-- documentation says: a token that is used before it is issued or valid is refused, from its expiry
-- on it is expired, and its issuer is compared.
use email_analysis_agent.Prelude.{
  ℕ, ◌+◌, ◌≡◌, refl, sym, ap, ◌∙◌, false, ◌||◌, Option, none, some, List, [], ◌∷◌, if◌then◌else◌,
  ltb, leb, ◌==◌, nat_eq, list_eq, arith, Bool-cases, inl, inr, eq_self,
}
use email_analysis_agent.Text.{Text, codes}
use email_analysis_agent.Uuid
use email_analysis_agent.Uuid.{Uuid, InRange}
use email_analysis_agent.Security.Models.{
  Role, super_admin, admin, analyst, auditor, role_value, role_permissions,
}
use email_analysis_agent.Security.Tokens.Revoked.{check_claims-jti}
use email_analysis_agent.Security.Tokens.{
  Library, TokenManager, Decoded, TokenPayload, accepts, token_expired, invalid_token, is_revoked,
  role_of, granted, permissions_of, payload_of, check_claims, decoded, decode_token, Claims,
  Verdict, verified, expired, rejected, issuer, Subject, access_claims, refresh_claims,
  create_access_token, create_refresh_token,
}

-- What the documentation of `jwt.decode` says of claims at a time and for an issuer.
unfoldable pub verdict : Claims → ℕ → Text → Verdict
verdict c now iss =
    if ltb now c.iat || ltb now c.nbf
    then rejected
    else if leb c.exp now
    then expired
    else if c.iss == iss
    then verified c
    else rejected

-- A token issued at `now` for `life` seconds and used `later`.
unfoldable pub in_its_time : ℕ → ℕ → ℕ → Decoded → Decoded
in_its_time now life later d =
    if ltb later now then invalid_token else if leb (now + life) later then token_expired else d

role_of-role_value : (r : Role) → role_of (role_value r) ≡ some r
unfolding role_of role_value
role_of-role_value super_admin = refl
role_of-role_value admin = refl
role_of-role_value analyst = refl
role_of-role_value auditor = refl

-- The permissions of a token that was issued with `permissions`: an empty list counts as none.
unfoldable pub effective : Option (List Text) → Role → List Text
effective none role = granted role
effective (some []) role = granted role
effective (some (q ∷ qs)) role = q ∷ qs

granted-nonempty : (r : Role) → (granted r == []) ≡ false
unfolding granted role_permissions
granted-nonempty super_admin = refl
granted-nonempty admin = refl
granted-nonempty analyst = refl
granted-nonempty auditor = refl

decoded-verdict :
    {Token : Type 0} (lib : Library Token) (m : TokenManager) (t : Text) (c : Claims)
    (now life later : ℕ)
    → c.iat ≡ now
    → c.nbf ≡ now
    → c.exp ≡ now + life
    → c.iss ≡ issuer
    → decoded lib m t (verdict c later issuer) ≡ in_its_time now life later (check_claims lib m t c)
unfolding decoded verdict in_its_time
decoded-verdict lib m t c now life later hi hn he hs = elim (Bool-cases (ltb later now)) [
  | inl early ↦ ground (arith, hi, early)
  | inr due ↦ elim (Bool-cases (leb (now + life) later)) [
    | inl late ↦ ground (arith, hi, hn, he, due, late)
    | inr timely ↦ ground (arith, hi, hn, he, hs, due, timely, eq_self issuer)
  ]
]

permissions_of-effective :
    (m : TokenManager) (now : ℕ) (jti : Uuid) (s : Subject) (permissions : Option (List Text))
    → permissions_of (access_claims m now jti s permissions) (codes "access") s.role
      ≡ effective permissions s.role
unfolding permissions_of access_claims effective
permissions_of-effective m now jti s none = rw (granted-nonempty s.role) refl
permissions_of-effective m now jti s (some []) = refl
permissions_of-effective m now jti s (some (q ∷ qs)) = refl

abbrev access_payload : TokenManager → ℕ → Uuid → Subject → Option (List Text) → TokenPayload
access_payload m now jti s permissions = record {
  sub = s.user_id;
  tenant_id = s.tenant_id;
  email = s.email;
  role = s.role;
  permissions = effective permissions s.role;
  token_type = codes "access";
  jti = jti;
  exp = now + m.access_token_expire_seconds;
  iat = now;
}

payload_of-access :
    {Token : Type 0} (lib : Library Token) (m : TokenManager) (now : ℕ) (jti : Uuid) (s : Subject)
    (permissions : Option (List Text))
    → lib.parse_uuid (Uuid.text s.user_id) ≡ some s.user_id
    → lib.parse_uuid (Uuid.text s.tenant_id) ≡ some s.tenant_id
    → payload_of lib (access_claims m now jti s permissions) (codes "access") jti
      ≡ accepts (access_payload m now jti s permissions)
unfolding payload_of access_claims
payload_of-access lib m now jti s permissions hu ht =
    rw
      (
        payload_of,
        role_of-role_value s.role,
        hu,
        ht,
        permissions_of-effective m now jti s permissions,
      )
      refl

check_claims-access :
    {Token : Type 0} (lib : Library Token) (m m' : TokenManager) (now : ℕ) (jti : Uuid)
    (s : Subject) (permissions : Option (List Text))
    → lib.parse_uuid (Uuid.text jti) ≡ some jti
    → lib.parse_uuid (Uuid.text s.user_id) ≡ some s.user_id
    → lib.parse_uuid (Uuid.text s.tenant_id) ≡ some s.tenant_id
    → check_claims lib m' (codes "access") (access_claims m now jti s permissions) ≡ (
        if is_revoked m' jti
        then invalid_token
        else accepts (access_payload m now jti s permissions))
unfolding check_claims access_claims
check_claims-access lib m m' now jti s permissions hj hu ht =
    rw (hj, payload_of-access lib m now jti s permissions hu ht) refl

-- With the library as documented, and identifiers that `UUID` reads back from their texts: an access token that
-- is decoded as one is refused before its time, expired from the end of its life on, refused when it
-- is revoked, and otherwise accepted with what it was issued for; a list of no permissions is
-- replaced by the permissions of the role.
pub create_access_token-decode_token :
    {Token : Type 0} (lib : Library Token) (m m' : TokenManager) (now later : ℕ) (jti : Uuid)
    (s : Subject) (permissions : Option (List Text))
    → ((c : Claims) (t : ℕ) → lib.decode t issuer (lib.encode c) ≡ verdict c t issuer)
    → lib.parse_uuid (Uuid.text jti) ≡ some jti
    → lib.parse_uuid (Uuid.text s.user_id) ≡ some s.user_id
    → lib.parse_uuid (Uuid.text s.tenant_id) ≡ some s.tenant_id
    → let (token, _, life) = create_access_token lib m now jti s permissions in
      decode_token lib later m' token (codes "access")
      ≡ in_its_time now life later (
          if is_revoked m' jti
          then invalid_token
          else accepts record {
            sub = s.user_id;
            tenant_id = s.tenant_id;
            email = s.email;
            role = s.role;
            permissions = effective permissions s.role;
            token_type = codes "access";
            jti = jti;
            exp = now + life;
            iat = now;
          })
unfolding decode_token create_access_token access_claims
create_access_token-decode_token lib m m' now later jti s permissions documented hj hu ht =
    let c = access_claims m now jti s permissions in
    let life = m.access_token_expire_seconds in
    ap (λ v. decoded lib m' (codes "access") v) (documented c later)
    ∙ decoded-verdict lib m' (codes "access") c now life later refl refl refl refl
    ∙ ap (λ d. in_its_time now life later d)
        (check_claims-access lib m m' now jti s permissions hj hu ht)

check_claims-wrong :
    {Token : Type 0} (lib : Library Token) (m : TokenManager) (c : Claims) (t : Text)
    → (c.token_type == t) ≡ false
    → check_claims lib m t c ≡ invalid_token
unfolding check_claims
check_claims-wrong lib m c t differs = rw differs refl

-- With the library as documented: a refresh token is never accepted as an access token nor an access
-- token as a refresh token; each is refused before its time, expired from the end of its life on, and
-- refused as of the wrong type in between.
pub decode_token-wrong_type :
    {Token : Type 0} (lib : Library Token) (m m' : TokenManager) (now later : ℕ) (jti : Uuid)
    (s : Subject) (permissions : Option (List Text))
    → ((c : Claims) (t : ℕ) → lib.decode t issuer (lib.encode c) ≡ verdict c t issuer)
    → let (refresh, _, life) = create_refresh_token lib m now jti s in
      let (access, _, life') = create_access_token lib m now jti s permissions in
      (decode_token lib later m' refresh (codes "access")
        ≡ in_its_time now life later invalid_token)
      × (decode_token lib later m' access (codes "refresh")
          ≡ in_its_time now life' later invalid_token)
unfolding decode_token create_access_token create_refresh_token access_claims refresh_claims
decode_token-wrong_type lib m m' now later jti s permissions documented =
    let r = refresh_claims m now jti s in
    let a = access_claims m now jti s permissions in
    let life = m.refresh_token_expire_seconds in
    let life' = m.access_token_expire_seconds in
    (
      ap (λ v. decoded lib m' (codes "access") v) (documented r later)
          ∙ decoded-verdict lib m' (codes "access") r now life later refl refl refl refl
          ∙ ap (λ d. in_its_time now life later d)
              (check_claims-wrong lib m' r (codes "access") refl),
      ap (λ v. decoded lib m' (codes "refresh") v) (documented a later)
          ∙ decoded-verdict lib m' (codes "refresh") a now life' later refl refl refl refl
          ∙ ap (λ d. in_its_time now life' later d)
              (check_claims-wrong lib m' a (codes "refresh") refl),
    )

-- The identifier of an accepted token is that of its claims.
pub decode_token-jti :
    {Token : Type 0} (lib : Library Token) (m : TokenManager) (t : ℕ) (c : Claims) (e : Text)
    (p : TokenPayload)
    → lib.decode t issuer (lib.encode c) ≡ verdict c t issuer
    → decode_token lib t m (lib.encode c) e ≡ accepts p
    → lib.parse_uuid c.jti ≡ some p.jti
unfolding decode_token decoded verdict
decode_token-jti lib m t c e p documented done =
    let known : decoded lib m e (verdict c t issuer) ≡ accepts p =
      sym (ap (λ v. decoded lib m e v) documented) ∙ done in
    ground (arith, known, check_claims-jti lib m e c p)
