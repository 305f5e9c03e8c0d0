-- ===== src/Security/Login/Hashes.antt =====
-- What `hash_password` makes is read back by `verify_password`.
use email_analysis_agent.Prelude.{
  ℕ, ◌≡◌, refl, ap, ◌∙◌, some, List, [], ◌∷◌, ◌++◌, ◌==◌, nat_eq, list_eq, arith, nat_beq_iff,
}
use email_analysis_agent.Text.{Text, codes, starts_with-append, count}
use email_analysis_agent.Security.Login.{
  Services, split, verify_parts, verify_password, hash_password,
}

-- A piece without the separator stays whole.
split-append :
    (c : ℕ) (piece rest : Text)
    → count c piece ≡ 0
    → split c (piece ++ c ∷ rest) ≡ piece ∷ split c rest
unfolding split count
split-append c [] rest absent = ground (arith, nat_beq_iff c c)
split-append c (d ∷ piece) rest absent = ground (arith, split-append c piece rest)

split-last : (c : ℕ) (piece : Text) → count c piece ≡ 0 → split c piece ≡ piece ∷ []
unfolding split count
split-last c [] absent = refl
split-last c (d ∷ piece) absent = ground (arith, split-last c piece)

parts_of :
    (sv : Services) (salt : List ℕ) (password : Text)
    → ((bytes : List ℕ) → count 36 (sv.hex bytes) ≡ 0)
    → split 36 (hash_password sv salt password)
      ≡ codes "pbkdf2_sha256"
        ∷ codes "100000"
        ∷ sv.hex salt
        ∷ sv.hex (sv.pbkdf2_hmac password salt 100000)
        ∷ []
unfolding hash_password count
parts_of sv salt password plain =
    let key = sv.hex (sv.pbkdf2_hmac password salt 100000) in
    split-append 36 (codes "pbkdf2_sha256") (codes "100000" ++ 36 ∷ (sv.hex salt ++ 36 ∷ key)) refl
    ∙ ap (λ rest. codes "pbkdf2_sha256" ∷ rest)
        (split-append 36 (codes "100000") (sv.hex salt ++ 36 ∷ key) refl
          ∙ ap (λ rest. codes "100000" ∷ rest)
              (split-append 36 (sv.hex salt) key (plain salt)
                ∙ ap (λ rest. sv.hex salt ∷ rest)
                    (split-last 36 key (plain (sv.pbkdf2_hmac password salt 100000)))))

verify_parts-hash :
    (sv : Services) (password' : Text) (salt key : List ℕ)
    → sv.int (codes "100000") ≡ some 100000
    → sv.fromhex (sv.hex salt) ≡ some salt
    → sv.fromhex (sv.hex key) ≡ some key
    → verify_parts sv password'
        (codes "pbkdf2_sha256" ∷ codes "100000" ∷ sv.hex salt ∷ sv.hex key ∷ [])
      ≡ (sv.pbkdf2_hmac password' salt 100000 == key)
unfolding verify_parts
verify_parts-hash sv password' salt key number reads_salt reads_key =
    rw (verify_parts, number, reads_salt, reads_key) refl

verify_password-prefixed :
    (sv : Services) (password' rest : Text)
    → verify_password sv password' (codes "pbkdf2_sha256$" ++ rest)
      ≡ some (verify_parts sv password' (split 36 (codes "pbkdf2_sha256$" ++ rest)))
unfolding verify_password
verify_password-prefixed sv password' rest =
    rw (verify_password, starts_with-append (codes "pbkdf2_sha256$") rest) refl

-- Where `int` and `bytes.fromhex` read back what was printed, and hexadecimal digits hold no `$`: a
-- password is accepted for the hash of another exactly if PBKDF2 makes the same key of both with the
-- salt and 100000 iterations; the password itself always is.
pub verify_password-hash_password :
    (sv : Services) (salt : List ℕ) (password password' : Text)
    → sv.int (codes "100000") ≡ some 100000
    → ((bytes : List ℕ) → sv.fromhex (sv.hex bytes) ≡ some bytes)
    → ((bytes : List ℕ) → count 36 (sv.hex bytes) ≡ 0)
    → verify_password sv password' (hash_password sv salt password)
      ≡ some (sv.pbkdf2_hmac password' salt 100000 == sv.pbkdf2_hmac password salt 100000)
unfolding hash_password
verify_password-hash_password sv salt password password' number reads plain =
    let key = sv.pbkdf2_hmac password salt 100000 in
    verify_password-prefixed sv password' (codes "100000" ++ 36 ∷ (sv.hex salt ++ 36 ∷ sv.hex key))
    ∙ ap (λ parts. some (verify_parts sv password' parts)) (parts_of sv salt password plain)
    ∙ ap some (verify_parts-hash sv password' salt key number (reads salt) (reads key))
