-- ===== src/Server/Floats.antt =====
-- server.go, solana_client.go: the float64 arithmetic of the processor and of the package math, which
-- the model takes as it is.
use go_octopi.Base.{ℕ, Bool}
use go_octopi.Base.Int.{ℤ}

pub record Floats (F : Type 0) : Type 0 where
  pub add : F → F → F
  pub sub : F → F → F
  pub mul : F → F → F
  pub div : F → F → F
  pub neg : F → F
  -- a < b and a == b
  pub lt : F → F → Bool
  pub eq : F → F → Bool
  -- float64(n)
  pub of_int : ℤ → F
  -- `decimal m e` is the literal m / 10 ^ e
  pub decimal : ℤ → ℕ → F
  pub abs : F → F
  pub pow : F → F → F
  pub is_nan : F → Bool
  pub is_inf : F → Bool
  pub nan : F
  -- d.Hours() of a duration of so many nanoseconds
  pub hours : ℤ → F
