-- ===== src/Solana/Number.antt =====
-- solana_client.go: `parseUintString` and `jsonNumberToUint64`, over the bytes of a number's text.
pub mod Decimal
use go_octopi.Base.{
  ℕ, ◌+◌, ◌*◌, ◌-◌, ◌%◌, Bool, true, false, ◌||◌, Option, none, some, List, [], ◌∷◌, ltb, nat_eq,
  if◌then◌else◌,
}
use go_octopi.Base.Fault.{Error, plain, Result, ok, err}
use go_octopi.Base.Word.{u64_mod, i64_limit, add64, mul64}

abbrev pub is_digit : ℕ → Bool
is_digit ch = if ltb ch b'0' || ltb b'9' ch then false else true

-- The loop of `parseUintString`; the sum wraps.
unfoldable pub parse_digits : ℕ → List ℕ → Result ℕ
parse_digits result [] = ok result
parse_digits result (ch ∷ s) = elim (is_digit ch) [
  | true ↦ parse_digits (add64 (mul64 result 10) (ch - b'0')) s
  | false ↦ err (plain "invalid digit")
]

-- parseUintString
unfoldable pub parse_uint_string : List ℕ → Result ℕ
parse_uint_string s = parse_digits 0 s

-- The number that strconv.ParseInt reads from a text of digits alone, with no bound.
unfoldable pub value_of : ℕ → List ℕ → Option ℕ
value_of acc [] = some acc
value_of acc (ch ∷ s) = elim (is_digit ch) [
  | true ↦ value_of (acc * 10 + (ch - b'0')) s
  | false ↦ none
]

-- strconv.ParseInt of a text without a sign, as far as it fits an int64.
unfoldable pub unsigned_int64 : List ℕ → Option ℕ
unsigned_int64 [] = none
unsigned_int64 (ch ∷ s) = elim (value_of 0 (ch ∷ s)) [
  | none ↦ none
  | some v ↦ if ltb v i64_limit then some v else none
]

abbrev only_zero : Option ℕ → Option ℕ
only_zero none = none
only_zero (some v) = if nat_eq v 0 then some 0 else none

-- `n.Int64()` with `err == nil && i >= 0`.
unfoldable pub natural_int64 : List ℕ → Option ℕ
natural_int64 [] = none
natural_int64 (ch ∷ s) =
    if nat_eq ch b'-'
    then only_zero (unsigned_int64 s)
    else if nat_eq ch b'+'
    then unsigned_int64 s
    else unsigned_int64 (ch ∷ s)

-- jsonNumberToUint64
unfoldable pub json_number_to_uint64 : List ℕ → Result ℕ
json_number_to_uint64 [] = err (plain "empty number")
json_number_to_uint64 (ch ∷ s) = elim (natural_int64 (ch ∷ s)) [
  | some i ↦ ok i
  | none ↦ parse_uint_string (ch ∷ s)
]
