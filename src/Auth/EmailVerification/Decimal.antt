-- ===== src/Auth/EmailVerification/Decimal.antt =====
-- Numbers in decimal: a function that behaves as `toString` of the standard library does towards `parseInt`.
use Prim.Native.Nat.{compare, Ordering}
use Prim.Native.Char.{Char, code, IsScalar}
use demo_t.Base.{
  ℕ, zero, suc, String, Bool, true, false, some, List, [], ◌∷◌, ◌≡◌, ◌≢◌, ap, ◌∙◌, ◌&&◌, ◌+◌, ◌/◌,
  ◌%◌, ◌<◌, ltb, ltb→lt, leb, if-elim, arith, codes, if◌then◌else◌,
}
use demo_t.Auth.EmailVerification.{parse_int, digits_from, parse_codes}

below : (n m : ℕ) → n < m → compare n m ≡ Ordering.lt
below n m h = ground arith

ascii : (n : ℕ) → n < 128 → IsScalar n
ascii n h = rw (below n 55296 (omega arith)) tt

digit : ℕ → Char
digit n = Char.char (n % 10 + 48) (ascii (n % 10 + 48) (omega arith))

code-digit : (n : ℕ) → n < 10 → code (digit n) ≡ n + 48
unfolding digit
code-digit n h = omega arith

-- The digits of a number before a text, on fuel.
printed : ℕ → ℕ → String → String
printed zero n out = out
printed (suc fuel) n out =
    let rest = printed fuel (n / 10) (String.◌∷◌ (digit (n % 10)) out) in
    if ltb n 10 then String.◌∷◌ (digit n) out else rest

pub to_string : ℕ → String
to_string n = printed (suc n) n ""

digits_from-printed :
    (fuel n : ℕ) (out : String)
    → n < fuel
    → digits_from 0 (codes (printed fuel n out)) ≡ digits_from n (codes out)
unfolding printed digits_from
digits_from-printed zero n out h = absurd (omega arith)
digits_from-printed (suc fuel) n out h = grind (
  arith,
  code-digit n,
  code-digit (n % 10),
  digits_from-printed fuel (n / 10) (String.◌∷◌ (digit (n % 10)) out),
)

-- `parseInt` finds a number where the first character is a digit.
is_number : List ℕ → Bool
is_number [] = false
is_number (c ∷ s) = leb b'0' c && leb c b'9'

digit-is_number :
    (n : ℕ) (out : String) → n < 10 → is_number (codes (String.◌∷◌ (digit n) out)) ≡ true
unfolding is_number
digit-is_number n out h = grind (arith, code-digit n h)

printed-is_number :
    (fuel n : ℕ) (out : String)
    → is_number (codes out) ≡ true
    → is_number (codes (printed fuel n out)) ≡ true
unfolding printed is_number
printed-is_number zero n out h = h
printed-is_number (suc fuel) n out h = grind (
  arith,
  code-digit n,
  code-digit (n % 10),
  printed-is_number fuel (n / 10) (String.◌∷◌ (digit (n % 10)) out),
)

to_string-is_number : (n : ℕ) → is_number (codes (to_string n)) ≡ true
unfolding to_string printed is_number
to_string-is_number n =
    if-elim (λ s. is_number (codes s) ≡ true) (ltb n 10) _ _
      (λ small. digit-is_number n "" (ltb→lt n 10 small))
      (λ _. printed-is_number n (n / 10) _ (digit-is_number (n % 10) "" (omega arith)))

parse_codes-is_number : (s : List ℕ) → is_number s ≡ true → parse_codes s ≡ some (digits_from 0 s)
unfolding parse_codes is_number
parse_codes-is_number [] h = cc
parse_codes-is_number (c ∷ s) h = ground arith

pub parse_int-to_string : (n : ℕ) → parse_int (to_string n) ≡ some n
unfolding parse_int to_string digits_from
parse_int-to_string n =
    parse_codes-is_number (codes (to_string n)) (to_string-is_number n)
    ∙ ap some (digits_from-printed (suc n) n "" (omega arith))

pub to_string-text : (n : ℕ) → to_string n ≢ ""
unfolding is_number
to_string-text n e = let number = to_string-is_number n in cc
