-- ===== src/Solana/Number/Decimal.antt =====
-- solana_client.go: what `parseUintString` and `jsonNumberToUint64` make of a printed number.
use go_octopi.Base.{
  ℕ, zero, suc, ◌+◌, ◌*◌, ◌-◌, ◌/◌, ◌%◌, ◌<◌, ◌≡◌, refl, ap, ◌∙◌, true, none, some, List, [], ◌∷◌,
  ◌++◌, ltb, arith, Bool-cases, inl, inr, length, length-append, if◌then◌else◌,
}
use go_octopi.Base.Fault.{ok}
use go_octopi.Base.Text.{digits, digits_fuel}
use go_octopi.Base.Word.{u64_mod, add64, mul64, i64_limit}
use go_octopi.Solana.Number.{
  is_digit, parse_digits, parse_uint_string, value_of, unsigned_int64, natural_int64,
  json_number_to_uint64,
}

parse-append :
    (r v c : ℕ) (xs : List ℕ)
    → parse_digits r xs ≡ ok v
    → is_digit c ≡ true
    → parse_digits r (xs ++ c ∷ []) ≡ ok (add64 (mul64 v 10) (c - b'0'))
unfolding parse_digits
parse-append r v c [] h d = ground arith
parse-append r v c (x ∷ xs) h d =
    ground (arith, parse-append (add64 (mul64 r 10) (x - b'0')) v c xs)

value-append :
    (r v c : ℕ) (xs : List ℕ)
    → value_of r xs ≡ some v
    → is_digit c ≡ true
    → value_of r (xs ++ c ∷ []) ≡ some (v * 10 + (c - b'0'))
unfolding value_of
value-append r v c [] h d = ground arith
value-append r v c (x ∷ xs) h d = ground (arith, value-append (r * 10 + (x - b'0')) v c xs)

parse-nil : (r : ℕ) → parse_digits r [] ≡ ok r
unfolding parse_digits
parse-nil r = refl

is_digit-digit : (d : ℕ) → d < 10 → is_digit (b'0' + d) ≡ true
is_digit-digit d h = ground arith

ltb→lt : (n : ℕ) → ltb n 10 ≡ true → n < 10
ltb→lt n h = ground arith

parse-digits_fuel : (f n : ℕ) → n < f → parse_digits 0 (digits_fuel f n) ≡ ok (n % u64_mod)
unfolding digits_fuel
parse-digits_fuel zero n h = absurd (omega arith)
parse-digits_fuel (suc f) n h = elim (Bool-cases (ltb n 10)) [
  | inl one ↦ rw one (
      parse-append 0 0 (b'0' + n) [] (parse-nil 0) (is_digit-digit n (ltb→lt n one))
      ∙ ap ok (omega (arith, ltb→lt n one)))
  | inr more ↦ rw more (
      parse-append 0 ((n / 10) % u64_mod) (b'0' + n % 10) (digits_fuel f (n / 10))
        (parse-digits_fuel f (n / 10) (ground arith)) (is_digit-digit (n % 10) (omega arith))
      ∙ ap ok (omega arith))
]

-- Reading a printed number gives the number modulo 2 ^ 64: exactly the number where it fits a
-- uint64, and a wrapped one, with no error, where it does not.
pub parse_uint_string-digits : (n : ℕ) → parse_uint_string (digits n) ≡ ok (n % u64_mod)
unfolding parse_uint_string digits
parse_uint_string-digits n = parse-digits_fuel (suc n) n (omega arith)

value-nil : (r : ℕ) → value_of r [] ≡ some r
unfolding value_of
value-nil r = refl

value-digits_fuel : (f n : ℕ) → n < f → value_of 0 (digits_fuel f n) ≡ some n
unfolding digits_fuel
value-digits_fuel zero n h = absurd (omega arith)
value-digits_fuel (suc f) n h = elim (Bool-cases (ltb n 10)) [
  | inl one ↦ rw one (
      value-append 0 0 (b'0' + n) [] (value-nil 0) (is_digit-digit n (ltb→lt n one))
      ∙ ap some (omega arith))
  | inr more ↦ rw more (
      value-append 0 (n / 10) (b'0' + n % 10) (digits_fuel f (n / 10))
        (value-digits_fuel f (n / 10) (ground arith)) (is_digit-digit (n % 10) (omega arith))
      ∙ ap some (omega arith))
]

-- A text that is a number's has a digit in front.
leading : (c : ℕ) (s : List ℕ) → is_digit c ≡ true → natural_int64 (c ∷ s) ≡ unsigned_int64 (c ∷ s)
unfolding natural_int64
leading c s d = ground arith

value-head : (c n : ℕ) (s : List ℕ) → value_of 0 (c ∷ s) ≡ some n → is_digit c ≡ true
unfolding value_of
value-head c n s h = ground arith

unsigned-value :
    (c n : ℕ) (s : List ℕ)
    → value_of 0 (c ∷ s) ≡ some n
    → unsigned_int64 (c ∷ s) ≡ (if ltb n i64_limit then some n else none)
unfolding unsigned_int64
unsigned-value c n s v = rw (v, unsigned_int64)

number-of_value :
    (s : List ℕ) (n : ℕ)
    → value_of 0 s ≡ some n
    → parse_uint_string s ≡ ok (n % u64_mod)
    → 0 < length s
    → json_number_to_uint64 s ≡ ok (n % u64_mod)
unfolding json_number_to_uint64
number-of_value [] n v p h = absurd (omega arith)
number-of_value (c ∷ s) n v p h =
    let natural = leading c s (value-head c n s v) ∙ unsigned-value c n s v in
    ground (arith, natural, p)

length-digits_fuel : (f n : ℕ) → 0 < length (digits_fuel (suc f) n)
unfolding digits_fuel
length-digits_fuel f n =
    ground (arith, length-append (digits_fuel f (n / 10)) ((b'0' + n % 10) ∷ []))

-- The same for `jsonNumberToUint64`, which tries an int64 first: a JSON number without a sign is read
-- modulo 2 ^ 64.
pub json_number_to_uint64-digits : (n : ℕ) → json_number_to_uint64 (digits n) ≡ ok (n % u64_mod)
unfolding digits
json_number_to_uint64-digits n =
    number-of_value (digits_fuel (suc n) n) n (value-digits_fuel (suc n) n (omega arith))
      (parse_uint_string-digits n) (length-digits_fuel n n)
