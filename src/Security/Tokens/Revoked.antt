-- ===== src/Security/Tokens/Revoked.antt =====
-- What a revocation changes of what is accepted.
use email_analysis_agent.Prelude.{
  ℕ, ◌≡◌, true, false, some, if◌then◌else◌, ◌==◌, nat_eq, list_eq, ◌↔◌, arith, Option-cases, inl,
  inr,
}
use email_analysis_agent.Dict.Sweep.{member}
use email_analysis_agent.Text.{Text}
use email_analysis_agent.Uuid.{Uuid}
use email_analysis_agent.Security.Tokens.{
  Library, TokenManager, TokenPayload, accepts, is_revoked, payload_of, check_claims, decoded,
  decode_token, revoke_token, Claims, Verdict, verified, expired, rejected, issuer,
}

is_revoked-revoke_token :
    (m : TokenManager) (j k : Uuid)
    → is_revoked (revoke_token m j) k ≡ (if j == k then true else is_revoked m k)
unfolding is_revoked revoke_token member
is_revoked-revoke_token m j k = ground (arith, (nat_eq.same_iff j k))

payload_of-jti :
    {Token : Type 0} (lib : Library Token) (c : Claims) (t : Text) (jti : Uuid) (p : TokenPayload)
    → payload_of lib c t jti ≡ accepts p
    → p.jti ≡ jti
unfolding payload_of
payload_of-jti lib c t jti p done = ground (arith, done)

check_claims-revoke_token :
    {Token : Type 0} (lib : Library Token) (m : TokenManager) (t : Text) (c : Claims) (j : Uuid)
    (p : TokenPayload)
    → (check_claims lib (revoke_token m j) t c ≡ accepts p)
      ↔ ((check_claims lib m t c ≡ accepts p) × ((j == p.jti) ≡ false))
unfolding check_claims
check_claims-revoke_token lib m t c j p = elim (Option-cases (lib.parse_uuid c.jti)) [
  | inl unread ↦ ground (arith, unread)
  | inr (jti, read) ↦ ground (
    arith,
    read,
    is_revoked-revoke_token m j jti,
    payload_of-jti lib c t jti p,
    nat_eq.same_iff j jti,
  )
]

decoded-revoke_token :
    {Token : Type 0} (lib : Library Token) (m : TokenManager) (t : Text) (v : Verdict) (j : Uuid)
    (p : TokenPayload)
    → (decoded lib (revoke_token m j) t v ≡ accepts p)
      ↔ ((decoded lib m t v ≡ accepts p) × ((j == p.jti) ≡ false))
unfolding decoded
decoded-revoke_token lib m t expired j p = ground arith
decoded-revoke_token lib m t rejected j p = ground arith
decoded-revoke_token lib m t (verified c) j p = check_claims-revoke_token lib m t c j p

-- After the revocation of an identifier, a token is accepted with a payload exactly if it was before
-- and the payload has another identifier.
pub decode_token-revoke_token :
    {Token : Type 0} (lib : Library Token) (now : ℕ) (m : TokenManager) (token : Token)
    (expected_type : Text) (j : Uuid) (p : TokenPayload)
    → (decode_token lib now (revoke_token m j) token expected_type ≡ accepts p)
      ↔ ((decode_token lib now m token expected_type ≡ accepts p) × ((j == p.jti) ≡ false))
unfolding decode_token
decode_token-revoke_token lib now m token expected_type j p =
    decoded-revoke_token lib m expected_type (lib.decode now issuer token) j p

-- An accepted token has the identifier that its claims name.
pub check_claims-jti :
    {Token : Type 0} (lib : Library Token) (m : TokenManager) (t : Text) (c : Claims)
    (p : TokenPayload)
    → check_claims lib m t c ≡ accepts p
    → lib.parse_uuid c.jti ≡ some p.jti
unfolding check_claims
check_claims-jti lib m t c p done = elim (Option-cases (lib.parse_uuid c.jti)) [
  | inl unread ↦ ground (arith, unread, done)
  | inr (jti, read) ↦ ground (arith, read, done, payload_of-jti lib c t jti p)
]
