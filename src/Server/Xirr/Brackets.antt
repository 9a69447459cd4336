-- ===== src/Server/Xirr/Brackets.antt =====
-- server.go: the points between which `bracketXIRR` finds a change of sign.
use go_octopi.Base.{
  ◌≡◌, true, ◌||◌, Option, some, List, [], ◌∷◌, inl, inr, ◌⊎◌, arith, Bool-cases, drop,
}
use go_octopi.Base.Int.{pos, negsuc}
use go_octopi.Server.Floats.{Floats}
use go_octopi.Server.Flows.{CashFlow}
use go_octopi.Server.Xirr.{xnpv, le, points, bracket_from, middle}
use go_octopi.Server.Xirr.Sums.{Ieee, net_value, Opposite, known_value}

module _ {F : Type 0} (floats : Floats F) (flows : List (CashFlow F)) where
  open floats use {lt, eq, mul, sub, abs, of_int, is_nan}

  -- The net values of opposite signs, or one net value of zero.
  pub data Straddles : F → F → Type 0 where
    at_zero : (p : F) → eq (net_value floats p flows) (of_int (pos 0)) ≡ true → Straddles p p
    apart :
        (p q : F)
        → Opposite floats (net_value floats p flows) (net_value floats q flows)
        → Straddles p q

  -- Two neighbours of a list.
  abbrev pub Neighbours : F → F → F → List F → Type 0
  Neighbours p q prev [] = ⊥
  Neighbours p q prev (x ∷ xs) = ((p ≡ prev) × ((q ≡ prev) ⊎ (q ≡ x))) ⊎ Neighbours p q x xs

  pub bracket_from-Straddles :
      (ieee : Ieee floats) (prev low high : F) (rest : List F)
      → bracket_from floats flows prev rest ≡ some (low, high)
      → Straddles low high × Neighbours low high prev rest
  unfolding bracket_from
  bracket_from-Straddles ieee prev low high [] h = absurd (ground arith)
  bracket_from-Straddles ieee prev low high (x ∷ rest) h =
      elim (Bool-cases (is_nan (xnpv floats prev flows) || is_nan (xnpv floats x flows))) [
        | inl unknown ↦
            let (s, n) =
              bracket_from-Straddles ieee x low high rest (rw (unknown, bracket_from) at h) in
            (s, inr n)
        | inr known ↦ elim (Bool-cases (eq (xnpv floats prev flows) (of_int (pos 0)))) [
          | inl zero_here ↦
              let same : ◌≡◌ {A = Option (F × F)} (some (prev, prev)) (some (low, high)) =
                rw (known, zero_here, bracket_from) at h in
              let at_low : low ≡ prev = cc in
              let at_high : high ≡ prev = cc in
              let value = known_value floats ieee flows prev (ground arith) in
              (
                rw (at_low, at_high) (at_zero prev (rw value at zero_here)),
                inl (at_low, inl at_high),
              )
          | inr nonzero ↦
              elim (Bool-cases
                (lt (mul (xnpv floats prev flows) (xnpv floats x flows)) (of_int (pos 0)))) [
                  | inl opposite ↦
                      let same : ◌≡◌ {A = Option (F × F)} (some (prev, x)) (some (low, high)) =
                        rw (known, nonzero, opposite, bracket_from) at h in
                      let at_low : low ≡ prev = cc in
                      let at_high : high ≡ x = cc in
                      let here = known_value floats ieee flows prev (ground arith) in
                      let there = known_value floats ieee flows x (ground arith) in
                      let signs =
                        ieee.negative_product (net_value floats prev flows)
                          (net_value floats x flows) (rw (here, there) at opposite) in
                      (rw (at_low, at_high) (apart prev x signs), inl (at_low, inr at_high))
                  | inr alike ↦
                      let (s, n) =
                        bracket_from-Straddles ieee x low high rest
                          (rw (known, nonzero, alike, bracket_from) at h) in
                      (s, inr n)
                ]
        ]
      ]

module _ {F : Type 0} (floats : Floats F) where
  -- a <= b
  abbrev pub AtMost : F → F → Type 0
  AtMost a b = le floats a b ≡ true

  abbrev pub bottom : F
  bottom = floats.decimal (negsuc 8) 1

  abbrev pub top : F
  top = floats.decimal (pos 100) 1

  -- The points rise, from the first to the last.
  abbrev pub Rising : F → List F → Type 0
  Rising prev [] = Unit
  Rising prev (x ∷ xs) =
      (AtMost bottom prev × AtMost prev prev × AtMost prev x × AtMost x top) × Rising x xs

  -- What the arithmetic of float64 promises for numbers from -0.9 to 10: the order is transitive, the
  -- middle of two numbers lies between them, and the literals stand in their order.
  pub record Ordered : Type 0 where
    pub at_most_trans : (a b c : F) → AtMost a b → AtMost b c → AtMost a c
    pub middle_between :
        (a b : F)
        → AtMost bottom a
        → AtMost a b
        → AtMost b top
        → AtMost a (middle floats a b) × AtMost (middle floats a b) b
    pub points_rise : Rising bottom (drop 1 (points floats))

  -- The number lies between two others.
  abbrev pub Between : F → F → F → Type 0
  Between low high r = AtMost low r × AtMost r high

  module _ (ordered : Ordered) (flows : List (CashFlow F)) where
    open ordered use {at_most_trans}

    pub Rising-at :
        (low high prev : F) (rest : List F)
        → Rising prev rest
        → Neighbours floats flows low high prev rest
        → AtMost bottom low × AtMost low high × AtMost high top
    Rising-at low high prev [] r n = absurd n
    Rising-at low high prev (x ∷ xs) ((b, same, up, t), r) (inl (p, inl q)) =
        rw (p, q) (b, same, at_most_trans prev x top up t)
    Rising-at low high prev (x ∷ xs) ((b, same, up, t), r) (inl (p, inr q)) = rw (p, q) (b, up, t)
    Rising-at low high prev (x ∷ xs) (h, r) (inr n) = Rising-at low high x xs r n
