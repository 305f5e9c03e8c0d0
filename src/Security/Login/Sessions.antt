-- ===== src/Security/Login/Sessions.antt =====
-- A refresh token works once, and a token that was logged out works no more.
use email_analysis_agent.Prelude.{
  ℕ, ◌≡◌, ◌≢◌, refl, sym, ap, ◌∙◌, true, nat_eq, list_eq, arith, inl, inr, ◌⊎◌,
}
use email_analysis_agent.Text.{Text, codes}
use email_analysis_agent.Uuid.{Uuid}
use email_analysis_agent.Security.Tokens.{
  Library, TokenManager, Decoded, TokenPayload, accepts, token_expired, invalid_token, value_error,
  decode_token, revoke_token, Claims, issuer, TokenPair,
}
use email_analysis_agent.Security.Tokens.Issued.{verdict, decode_token-jti}
use email_analysis_agent.Security.Tokens.Revoked.{decode_token-revoke_token}
use email_analysis_agent.Security.Login.{refreshed, refused, refresh_session, logout}

-- With the library as documented on a token: once a payload of it has been accepted and its
-- identifier revoked, it is accepted at no time.
revoked_never_accepted :
    {Token : Type 0} (lib : Library Token) (m : TokenManager) (t t' : ℕ) (c : Claims) (e : Text)
    (p p' : TokenPayload)
    → ((u : ℕ) → lib.decode u issuer (lib.encode c) ≡ verdict c u issuer)
    → decode_token lib t m (lib.encode c) e ≡ accepts p
    → decode_token lib t' (revoke_token m p.jti) (lib.encode c) e ≢ accepts p'
revoked_never_accepted lib m t t' c e p p' documented first again =
    let (before, differs) =
      (decode_token-revoke_token lib t' m (lib.encode c) e p.jti p').0 again in
    ground (
      arith,
      differs,
      decode_token-jti lib m t c e p (documented t) first,
      decode_token-jti lib m t' c e p' (documented t') before,
      nat_eq.same_iff p.jti p'.jti,
    )

-- What is decoded is a payload, or one of the failures.
Decoded-cases :
    (d : Decoded)
    → ((p : TokenPayload) × (d ≡ accepts p))
      ⊎ (d ≡ token_expired)
      ⊎ (d ≡ invalid_token)
      ⊎ (d ≡ value_error)
Decoded-cases (accepts p) = inl (p, refl)
Decoded-cases token_expired = inr (inl refl)
Decoded-cases invalid_token = inr (inr (inl refl))
Decoded-cases value_error = inr (inr (inr refl))

refresh_session-accepted :
    {Token : Type 0} (lib : Library Token) (m m' : TokenManager) (t : ℕ) (a r : Uuid)
    (token : Token) (pair : TokenPair Token)
    → refresh_session lib m t a r token ≡ (m', refreshed pair)
    → (p : TokenPayload) × (decode_token lib t m token (codes "refresh") ≡ accepts p)
      × (m' ≡ revoke_token m p.jti)
unfolding refresh_session
refresh_session-accepted lib m m' t a r token pair done =
    elim (Decoded-cases (decode_token lib t m token (codes "refresh"))) [
      | inl (p, ok) ↦ (p, ok, ground (arith, ok, done))
      | inr (inl failed) ↦ absurd (ground (arith, failed, done))
      | inr (inr (inl failed)) ↦ absurd (ground (arith, failed, done))
      | inr (inr (inr failed)) ↦ absurd (ground (arith, failed, done))
    ]

-- With the library as documented on the claims of a token: if a session has been refreshed with the
-- token, every later refresh with it, at whatever time, is refused and leaves the manager as it is.
pub refresh_session-once :
    {Token : Type 0} (lib : Library Token) (m m' : TokenManager) (t t' : ℕ) (a r a' r' : Uuid)
    (c : Claims) (pair : TokenPair Token)
    → ((u : ℕ) → lib.decode u issuer (lib.encode c) ≡ verdict c u issuer)
    → refresh_session lib m t a r (lib.encode c) ≡ (m', refreshed pair)
    → (d : Decoded) × (refresh_session lib m' t' a' r' (lib.encode c) ≡ (m', refused d))
unfolding refresh_session
refresh_session-once lib m m' t t' a r a' r' c pair documented done =
    let (p, ok, revoked) = refresh_session-accepted lib m m' t a r (lib.encode c) pair done in
    elim (Decoded-cases (decode_token lib t' m' (lib.encode c) (codes "refresh"))) [
      | inl (p', again) ↦ absurd (
          revoked_never_accepted lib m t t' c (codes "refresh") p p' documented ok (
            ap (λ n. decode_token lib t' n (lib.encode c) (codes "refresh")) (sym revoked) ∙ again))
      | inr (inl failed) ↦ (token_expired, rw (refresh_session, failed) refl)
      | inr (inr (inl failed)) ↦ (invalid_token, rw (refresh_session, failed) refl)
      | inr (inr (inr failed)) ↦ (value_error, rw (refresh_session, failed) refl)
    ]

-- With the library as documented on the claims of a token: after a logout with the token that
-- returned, the token is accepted as an access token at no time.
pub logout-revokes :
    {Token : Type 0} (lib : Library Token) (m m' : TokenManager) (t t' : ℕ) (c : Claims)
    (p' : TokenPayload)
    → ((u : ℕ) → lib.decode u issuer (lib.encode c) ≡ verdict c u issuer)
    → logout lib m t (lib.encode c) ≡ (m', true)
    → decode_token lib t' m' (lib.encode c) (codes "access") ≢ accepts p'
unfolding logout
logout-revokes lib m m' t t' c p' documented done again =
    elim (Decoded-cases (decode_token lib t m (lib.encode c) (codes "access"))) [
      | inl (p, ok) ↦
          let revoked : m' ≡ revoke_token m p.jti = ground (arith, ok, done) in
          revoked_never_accepted lib m t t' c (codes "access") p p' documented ok
            (ap (λ n. decode_token lib t' n (lib.encode c) (codes "access")) (sym revoked) ∙ again)
      | inr (inl failed) ↦ ground (arith, failed, done)
      | inr (inr (inl failed)) ↦ ground (arith, failed, done)
      | inr (inr (inr failed)) ↦ ground (arith, failed, done)
    ]
