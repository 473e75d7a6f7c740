-- ===== src/Text/Pad.antt =====
-- fmt.Sprintf("%05d", n), as a text that sorts as the numbers do and is read back.
use dnshealth_exporter.Prelude.{
  ℕ, ◌+◌, ◌*◌, ◌/◌, ◌%◌, ◌<◌, ◌≤◌, suc, ap₂, ◌∙◌, ◌≡◌, some, [], ◌∷◌, ltb, arith,
}
use native.Mathlib.Nat.{mul-le-mul_right}
use dnshealth_exporter.Text.{Text, text_ltb}
use dnshealth_exporter.Text.Decimal.{parse_decimal}

-- Five digits, with zeros in front. The argument is an uint16, which has no more digits.
unfoldable pub pad5 : ℕ → Text
pad5 n =
    (b'0' + n / 10000 % 10)
    ∷ (b'0' + n / 1000 % 10)
    ∷ (b'0' + n / 100 % 10)
    ∷ (b'0' + n / 10 % 10)
    ∷ (b'0' + n % 10)
    ∷ []

-- A padded priority of 16 bits is read back as the priority.
pub parse_decimal-pad5 : (n : ℕ) → n < 65536 → parse_decimal (pad5 n) ≡ some n
unfolding parse_decimal pad5
parse_decimal-pad5 n h = ground arith

-- A digit in front of two tails that compare as the numbers x and y below w do.
lead :
    (w d e x y : ℕ) (xs ys : Text)
    → x < w
    → y < w
    → text_ltb xs ys ≡ ltb x y
    → text_ltb ((b'0' + d) ∷ xs) ((b'0' + e) ∷ ys) ≡ ltb (d * w + x) (e * w + y)
unfolding text_ltb
lead w d e x y xs ys h k tails =
    ground (arith, λ (p : suc d ≤ e). mul-le-mul_right w p, λ (p : suc e ≤ d). mul-le-mul_right w p)

-- The same for a digit of two numbers and their rests, at a place of the notation.
at_place :
    (w m n x y : ℕ) (xs ys : Text)
    → x < w
    → y < w
    → text_ltb xs ys ≡ ltb x y
    → (v u : ℕ) → m * w + x ≡ v
    → n * w + y ≡ u
    → text_ltb ((b'0' + m) ∷ xs) ((b'0' + n) ∷ ys) ≡ ltb v u
at_place w m n x y xs ys h k tails v u p q = lead w m n x y xs ys h k tails ∙ ap₂ ltb p q

-- The last one to four of the digits.
abbrev last1 : ℕ → Text
last1 n = (b'0' + n % 10) ∷ []

abbrev last2 : ℕ → Text
last2 n = (b'0' + n / 10 % 10) ∷ last1 n

abbrev last3 : ℕ → Text
last3 n = (b'0' + n / 100 % 10) ∷ last2 n

abbrev last4 : ℕ → Text
last4 n = (b'0' + n / 1000 % 10) ∷ last3 n

last1-compare : (m n : ℕ) → text_ltb (last1 m) (last1 n) ≡ ltb (m % 10) (n % 10)
unfolding text_ltb
last1-compare m n = ground arith

last2-compare : (m n : ℕ) → text_ltb (last2 m) (last2 n) ≡ ltb (m % 100) (n % 100)
last2-compare m n =
    at_place 10 (m / 10 % 10) (n / 10 % 10) (m % 10) (n % 10) (last1 m) (last1 n) (omega arith)
      (omega arith) (last1-compare m n) (m % 100) (n % 100) (omega arith) (omega arith)

last3-compare : (m n : ℕ) → text_ltb (last3 m) (last3 n) ≡ ltb (m % 1000) (n % 1000)
last3-compare m n =
    at_place 100 (m / 100 % 10) (n / 100 % 10) (m % 100) (n % 100) (last2 m) (last2 n) (omega arith)
      (omega arith) (last2-compare m n) (m % 1000) (n % 1000) (omega arith) (omega arith)

last4-compare : (m n : ℕ) → text_ltb (last4 m) (last4 n) ≡ ltb (m % 10000) (n % 10000)
last4-compare m n =
    at_place 1000 (m / 1000 % 10) (n / 1000 % 10) (m % 1000) (n % 1000) (last3 m) (last3 n)
      (omega arith) (omega arith) (last3-compare m n) (m % 10000) (n % 10000) (omega arith)
      (omega arith)

-- Padded priorities of 16 bits compare as texts the way the priorities compare as numbers.
pub text_ltb-pad5 : (m n : ℕ) → m < 65536 → n < 65536 → text_ltb (pad5 m) (pad5 n) ≡ ltb m n
unfolding pad5
text_ltb-pad5 m n h k =
    at_place 10000 (m / 10000 % 10) (n / 10000 % 10) (m % 10000) (n % 10000) (last4 m) (last4 n)
      (omega arith) (omega arith) (last4-compare m n) m n (omega arith) (omega arith)
