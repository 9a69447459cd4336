-- ===== src/Base/Fault.antt =====
-- Errors as values. `message` is what `err.Error()` prints.
use Prim.Native.Nat.{ℕ, suc}
use Prim.Native.String.{String}
use mathlib.Core.Bool.{Bool, true, false}
use mathlib.Core.List.{List, ◌∷◌, ◌++◌}
use mathlib.Core.Path.{◌≡◌, refl}
use mathlib.Core.Logic.{◌⊎◌, inl, inr}
use mathlib.Core.Option.{Option}
use go_octopi.Base.Int.{ℤ, pos, negsuc}
use go_octopi.Base.Text.{codes, digits}

pub data Error : Type 0 where
  -- errors.New, and the errors of the standard library
  plain : String → Error
  -- fmt.Errorf("label: %w", err)
  wrap : String → Error → Error
  -- fmt.Errorf("label %d: %s", status, body), the body as bytes
  bad_status : String → ℕ → List ℕ → Error
  -- fmt.Errorf("rpc error (%d): %s", code, message)
  rpc_error : ℤ → String → Error
  -- fmt.Errorf("label %d: %w", n, err)
  wrap_at : String → ℕ → Error → Error
  -- fmt.Errorf("label %d word %d", n, m)
  plain_at : String → ℕ → String → ℕ → Error
  -- ErrEventsUnsupported
  events_unsupported : Error

unfoldable pub int_digits : ℤ → List ℕ
unfolding digits
int_digits (pos n) = digits n
int_digits (negsuc n) = b'-' ∷ digits (suc n)

unfoldable pub message : Error → List ℕ
unfolding int_digits digits
message (plain s) = codes s
message (wrap label e) = (codes label ++ codes ": ") ++ message e
message (bad_status label n body) = (codes label ++ codes " ") ++ (digits n ++ codes ": ") ++ body
message (rpc_error code s) = (codes "rpc error (" ++ int_digits code) ++ (codes "): " ++ codes s)
message (wrap_at label n e) = (codes label ++ codes " ") ++ (digits n ++ codes ": ") ++ message e
message (plain_at label n word k) =
    (codes label ++ codes " " ++ digits n) ++ (codes " " ++ codes word ++ codes " " ++ digits k)
message events_unsupported = codes "solana getEvents not supported on this endpoint"

pub data Result {ℓ} (A : Type ℓ) : Type ℓ where
  err : Error → Result A
  ok : A → Result A

-- `if err != nil { return ..., err }` between two steps.
infixl 5 ◌>>=◌
abbrev pub ◌>>=◌ {ℓ κ} : {A : Type ℓ} {B : Type κ} → Result A → (A → Result B) → Result B
err failure >>= next = err failure
ok value >>= next = next value

-- `if err != nil { return ..., fmt.Errorf("label: %w", err) }`
abbrev pub wrapping {ℓ} : {A : Type ℓ} → String → Result A → Result A
wrapping label (ok a) = ok a
wrapping label (err e) = err (wrap label e)

-- `if !test { return ..., err }`
abbrev pub require : Bool → Error → Result (Unit {0})
require true e = ok tt
require false e = err e

infixl 5 ◌>>◌
abbrev pub ◌>>◌ {ℓ} : {B : Type ℓ} → Result (Unit {0}) → Result B → Result B
step >> next = step >>= λ checked. next

-- `if p == nil { return ..., err }`
abbrev pub present {ℓ} : {A : Type ℓ} → Option A → Error → Result A
present (Option.some a) e = ok a
present Option.none e = err e

pub >>=-eq-ok {ℓ κ} :
    {A : Type ℓ} {B : Type κ} (step : Result A) (next : A → Result B) {b : B}
    → (step >>= next) ≡ ok b
    → (value : A) × (step ≡ ok value) × (next value ≡ ok b)
>>=-eq-ok (err failure) next h = cc
>>=-eq-ok (ok value) next h = (value, refl, h)

pub Result-cases {ℓ} :
    {A : Type ℓ} (r : Result A) → ((e : Error) × (r ≡ err e)) ⊎ ((a : A) × (r ≡ ok a))
Result-cases (ok a) = inr (a, refl)
Result-cases (err e) = inl (e, refl)
