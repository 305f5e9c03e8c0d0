-- ===== src/Text.antt =====
-- Python's `str` as its code points, with the methods of `str` that the program uses.
use Prim.Native.Char.{code}
use Prim.Native.String.{[], ◌∷◌}
use email_analysis_agent.Prelude.{
  ℕ, zero, suc, ◌+◌, ◌/◌, ◌%◌, ltb, ◌≡◌, refl, Bool, true, false, ◌&&◌, ◌||◌, String, List, [], ◌∷◌,
  ◌++◌, arith, leb, nat_beq, if◌then◌else◌,
}
use mathlib.Core.List.{reverse}

abbrev pub Text : Type 0
Text = List ℕ

-- The code points of a literal.
abbrev pub codes : String → Text
codes String.[] = []
codes (String.◌∷◌ c s) = code c ∷ codes s

-- `str.isspace` of one character.
pub is_space : ℕ → Bool
is_space c =
    (leb 9 c && leb c 13)
    || (leb 28 c && leb c 32)
    || nat_beq c 133
    || nat_beq c 160
    || nat_beq c 5760
    || (leb 8192 c && leb c 8202)
    || nat_beq c 8232
    || nat_beq c 8233
    || nat_beq c 8239
    || nat_beq c 8287
    || nat_beq c 12288

-- `str.lstrip()`
pub lstrip : Text → Text
lstrip [] = []
lstrip (c ∷ s) = let rest = lstrip s in if is_space c then rest else c ∷ s

-- `str.strip()`
unfoldable pub strip : Text → Text
unfolding is_space lstrip
strip s = reverse (lstrip (reverse (lstrip s)))

-- `s.startswith(prefix)`
unfoldable pub starts_with : Text → Text → Bool
starts_with [] s = true
starts_with (c ∷ prefix) [] = false
starts_with (c ∷ prefix) (d ∷ s) = nat_beq c d && starts_with prefix s

-- `s.count(c)` for one character.
unfoldable pub count : ℕ → Text → ℕ
count c [] = 0
count c (d ∷ s) = if nat_beq c d then count c s + 1 else count c s

-- `s.replace(c, "")` for one character.
unfoldable pub without : ℕ → Text → Text
without c [] = []
without c (d ∷ s) = let rest = without c s in if nat_beq c d then rest else d ∷ rest

pub starts_with-append : (prefix s : Text) → starts_with prefix (prefix ++ s) ≡ true
unfolding starts_with
starts_with-append [] s = refl
starts_with-append (c ∷ prefix) s = ground (arith, starts_with-append prefix s)

-- The decimal digits of a number, with as much fuel as it has digits at least.
digits : ℕ → ℕ → Text
digits zero n = []
digits (suc fuel) n =
    let rest = digits fuel (n / 10) in
    if ltb n 10 then (48 + n) ∷ [] else rest ++ (48 + n % 10) ∷ []

-- `str(n)`
pub decimal : ℕ → Text
unfolding digits
decimal n = digits (n + 1) n
