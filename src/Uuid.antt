-- ===== src/Uuid.antt =====
-- Python's `uuid.UUID` as its 128-bit integer, and `str(uuid)`.
use email_analysis_agent.Prelude.{
  ℕ, zero, suc, ◌+◌, ◌/◌, ◌%◌, ◌^◌, ◌<◌, ◌≡◌, refl, [], ◌∷◌, ◌++◌, arith, ltb, if◌then◌else◌,
  length, length-append, append-injective, sym, ◌∙◌,
}
use mathlib.Core.List.{append_assoc}
use native.Mathlib.Nat.{pow-suc}
use email_analysis_agent.Text.{Text}

abbrev pub Uuid : Type 0
Uuid = ℕ

abbrev pub InRange : Uuid → Type 0
InRange u = u < 2 ^ 128

hex_digit : ℕ → ℕ
hex_digit d = if ltb d 10 then 48 + d else 87 + d

-- The last `k` hexadecimal digits of `n`.
unfoldable pub hex_digits : ℕ → ℕ → Text
unfolding hex_digit
hex_digits zero n = []
hex_digits (suc k) n = hex_digits k (n / 16) ++ hex_digit (n % 16) ∷ []

-- `str(u)`: groups of 8, 4, 4, 4 and 12 digits, with dashes between.
unfoldable pub text : Uuid → Text
unfolding hex_digits
text u =
    hex_digits 8 (u / 16 ^ 24)
    ++ 45
      ∷ (hex_digits 4 (u / 16 ^ 20 % 16 ^ 4)
          ++ 45
            ∷ (hex_digits 4 (u / 16 ^ 16 % 16 ^ 4)
                ++ 45 ∷ (hex_digits 4 (u / 16 ^ 12 % 16 ^ 4) ++ 45 ∷ hex_digits 12 (u % 16 ^ 12))))

length-hex_digits : (k n : ℕ) → length (hex_digits k n) ≡ k
unfolding hex_digits
length-hex_digits zero n = refl
length-hex_digits (suc k) n = omega (
  arith,
  length-append {0} (hex_digits k (n / 16)) (hex_digit (n % 16) ∷ []),
  length-hex_digits k (n / 16),
)

hex_digit-injective : (c d : ℕ) → c < 16 → d < 16 → hex_digit c ≡ hex_digit d → c ≡ d
unfolding hex_digit
hex_digit-injective c d hc hd e = ground arith

-- Within the range of `k` digits, the digits determine the number.
hex_digits-injective :
    (k m n : ℕ) → m < 16 ^ k → n < 16 ^ k → hex_digits k m ≡ hex_digits k n → m ≡ n
unfolding hex_digits
hex_digits-injective zero m n hm hn e = omega arith
hex_digits-injective (suc k) m n hm hn e =
    let (high, low) =
      append-injective (hex_digits k (m / 16)) (hex_digits k (n / 16))
        (omega (arith, length-hex_digits k (m / 16), length-hex_digits k (n / 16))) e in
    omega (
      arith,
      pow-suc 16 k,
      hex_digits-injective k (m / 16) (n / 16) (omega (arith, pow-suc 16 k))
          (omega (arith, pow-suc 16 k)) high,
      hex_digit-injective (m % 16) (n % 16) (omega arith) (omega arith) (cc),
    )

-- A group of digits, a separator and the rest: what is printed determines the parts.
group-injective :
    (k m n : ℕ) {rest rest' : Text}
    → m < 16 ^ k
    → n < 16 ^ k
    → hex_digits k m ++ rest ≡ hex_digits k n ++ rest'
    → (m ≡ n) × (rest ≡ rest')
group-injective k m n hm hn e =
    let (same, others) =
      append-injective (hex_digits k m) (hex_digits k n)
        (omega (arith, length-hex_digits k m, length-hex_digits k n)) e in
    (hex_digits-injective k m n hm hn same, others)

tail_eq : {c d : ℕ} {xs ys : Text} → c ∷ xs ≡ d ∷ ys → xs ≡ ys
tail_eq e = cc

-- The text of `u` and what follows it, bracketed to the right.
text_then : Uuid → Text → Text
text_then u rest =
    hex_digits 8 (u / 16 ^ 24)
    ++ 45
      ∷ (hex_digits 4 (u / 16 ^ 20 % 16 ^ 4)
          ++ 45
            ∷ (hex_digits 4 (u / 16 ^ 16 % 16 ^ 4)
                ++ 45
                  ∷ (hex_digits 4 (u / 16 ^ 12 % 16 ^ 4)
                      ++ 45 ∷ (hex_digits 12 (u % 16 ^ 12) ++ rest))))

text-append : (u : Uuid) (rest : Text) → text u ++ rest ≡ text_then u rest
unfolding text text_then
text-append u rest = simp append_assoc

text_then-injective :
    (u v : Uuid) {rest rest' : Text}
    → InRange u
    → InRange v
    → text_then u rest ≡ text_then v rest'
    → (u ≡ v) × (rest ≡ rest')
unfolding text_then
text_then-injective u v hu hv e =
    let (e₁, r₁) = group-injective 8 (u / 16 ^ 24) (v / 16 ^ 24) (omega arith) (omega arith) e in
    let (e₂, r₂) =
      group-injective 4 (u / 16 ^ 20 % 16 ^ 4) (v / 16 ^ 20 % 16 ^ 4) (omega arith) (omega arith)
        (tail_eq r₁) in
    let (e₃, r₃) =
      group-injective 4 (u / 16 ^ 16 % 16 ^ 4) (v / 16 ^ 16 % 16 ^ 4) (omega arith) (omega arith)
        (tail_eq r₂) in
    let (e₄, r₄) =
      group-injective 4 (u / 16 ^ 12 % 16 ^ 4) (v / 16 ^ 12 % 16 ^ 4) (omega arith) (omega arith)
        (tail_eq r₃) in
    let (e₅, r₅) =
      group-injective 12 (u % 16 ^ 12) (v % 16 ^ 12) (omega arith) (omega arith) (tail_eq r₄) in
    (omega (arith, e₁, e₂, e₃, e₄, e₅), r₅)

-- Equal texts, followed by anything, come from equal identifiers.
pub text-append-injective :
    (u v : Uuid) {rest rest' : Text}
    → InRange u
    → InRange v
    → text u ++ rest ≡ text v ++ rest'
    → (u ≡ v) × (rest ≡ rest')
text-append-injective u v {rest} {rest'} hu hv e =
    text_then-injective u v hu hv (sym (text-append u rest) ∙ e ∙ text-append v rest')
