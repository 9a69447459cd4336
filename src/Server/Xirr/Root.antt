-- ===== src/Server/Xirr/Root.antt =====
-- server.go: what a rate that `xirr` finds is.
use go_octopi.Base.{
  ℕ, zero, suc, ◌≡◌, refl, true, false, some, List, inl, inr, ◌⊎◌, arith, Bool-cases, Option-cases,
  length, ltb,
}
use go_octopi.Base.Int.{pos}
use go_octopi.Server.Floats.{Floats}
use go_octopi.Server.Flows.{CashFlow}
use go_octopi.Server.Xirr.{
  xnpv, xnpv_derivative, xirr_newton, newton_step, is_flat, is_lost, tolerance, bracket_xirr, xirr,
}
use go_octopi.Server.Xirr.Brackets.{Ordered}
use go_octopi.Server.Xirr.Halves.{Enclosed, bisect_bracket-Enclosed}
use go_octopi.Server.Xirr.Sums.{Ieee, net_value, slope, xnpv-net_value, near_value, known_slope}

module _ {F : Type 0} (floats : Floats F) (ieee : Ieee floats) (flows : List (CashFlow F)) where
  open floats use {lt, sub, div, abs, is_nan}

  -- rate - value / slope
  abbrev pub next_rate : F → F
  next_rate rate = sub rate (div (net_value floats rate flows) (slope floats rate flows))

  -- A rate at which the net value of the flows is nearly 0, or a step of Newton's method from a rate that
  -- is nearly the same.
  pub data Settled (r : F) : Type 0 where
    balances : lt (abs (net_value floats r flows)) (tolerance floats) ≡ true → Settled r
    still :
        (rate : F)
        → r ≡ next_rate rate
        → is_nan r ≡ false
        → lt (abs (sub r rate)) (tolerance floats) ≡ true
        → Settled r

  -- A step of the code is one of Newton's method.
  newton_step_lem :
      (rate : F)
      → is_flat floats (xnpv_derivative floats rate flows) ≡ false
      → is_lost floats (newton_step floats flows rate) ≡ false
      → newton_step floats flows rate ≡ next_rate rate
  newton_step_lem rate steep found =
      let by = known_slope floats ieee flows rate (ground arith) in
      elim (xnpv-net_value floats rate flows) [
        | inr value ↦ rw (value, by, newton_step) refl
        | inl unknown ↦
            let lost : is_nan (newton_step floats flows rate) ≡ true =
              rw (unknown, newton_step)
                (ieee.nan_spreads rate (xnpv_derivative floats rate flows)) in
            absurd (ground arith)
      ]

  xirr_newton-Settled :
      (rounds : ℕ) (rate r : F) → xirr_newton floats rounds flows rate ≡ some r → Settled r
  unfolding xirr_newton
  xirr_newton-Settled zero rate r h = absurd (ground arith)
  xirr_newton-Settled (suc rounds) rate r h =
      elim (Bool-cases (lt (abs (xnpv floats rate flows)) (tolerance floats))) [
        | inl near ↦
            let same : rate ≡ r = ground arith in
            let value = near_value floats ieee flows rate near in
            balances (rw (← same) (rw value at near))
        | inr far ↦ elim (Bool-cases (is_flat floats (xnpv_derivative floats rate flows))) [
          | inl flat ↦ absurd (ground arith)
          | inr steep ↦ elim (Bool-cases (is_lost floats (newton_step floats flows rate))) [
            | inl lost ↦ absurd (ground arith)
            | inr found ↦
                let gap = sub (newton_step floats flows rate) rate in
                elim (Bool-cases (lt (abs gap) (tolerance floats))) [
                  | inl close ↦
                      let same : newton_step floats flows rate ≡ r = ground arith in
                      let step = newton_step_lem rate steep found in
                      let number : is_nan (newton_step floats flows rate) ≡ false = ground arith in
                      still rate (rw same at step) (rw same at number) (rw same at close)
                  | inr moving ↦
                      xirr_newton-Settled rounds (newton_step floats flows rate) r
                        (rw (far, steep, found, moving, xirr_newton) at h)
                ]
          ]
        ]
      ]

module _ {F : Type 0} (floats : Floats F) (ordered : Ordered floats) (ieee : Ieee floats)
    (flows : List (CashFlow F)) where
  -- Where float64 orders the numbers from -0.9 to 10 and treats NaN and the signs of products as IEEE 754
  -- promises, a rate that `xirr` finds nearly balances the flows; or is a step of Newton's method, with the
  -- net value of the flows and its derivative by the rate, from a rate that is nearly the same; or is the
  -- middle of what halving leaves of the interval between two neighbouring points of the table: an
  -- interval with net values of opposite signs at its ends, narrower than 1e-7 or halved 100 times. Nothing
  -- more than the two points is known where the flows nearly balance at the lower one.
  pub xirr-Root :
      (r : F)
      → xirr floats flows ≡ some r
      → Settled floats ieee flows r ⊎ Enclosed floats ordered ieee flows r
  unfolding xirr
  xirr-Root r h = elim (Bool-cases (ltb (length flows) 2)) [
    | inl few ↦ absurd (ground arith)
    | inr enough ↦ elim (Option-cases (xirr_newton floats 100 flows (floats.decimal (pos 1) 1))) [
      | inl e ↦ inr (
          bisect_bracket-Enclosed floats ordered ieee flows (bracket_xirr floats flows) r refl
            (rw (enough, e, xirr) at h))
      | inr (rate, e) ↦
          let same : rate ≡ r = ground arith in
          inl (
            rw (← same)
              (xirr_newton-Settled floats ieee flows 100 (floats.decimal (pos 1) 1) rate e))
    ]
  ]
