-- ===== src/Server/Xirr/Sums.antt =====
-- server.go: `xnpv` and `xnpvDerivative` as sums over the flows, and the laws of float64 that the search
-- for a rate relies on.
use go_octopi.Base.{
  ◌≡◌, refl, ap, true, false, List, [], ◌∷◌, inl, inr, ◌⊎◌, arith, Bool-cases, map,
}
use go_octopi.Base.Int.{pos}
use go_octopi.Base.Time.{Time}
use go_octopi.Server.Floats.{Floats}
use go_octopi.Server.Flows.{CashFlow}
use go_octopi.Server.Xirr.{
  duration_since, le, sum_discounted, xnpv, sum_slopes, xnpv_derivative, tolerance,
}

module _ {F : Type 0} (floats : Floats F) where
  open floats use {add, sub, mul, div, neg, lt, eq, of_int, decimal, abs, pow, is_nan, nan, hours}

  -- The sum of some numbers, from the left.
  abbrev pub sum_from : F → List F → F
  sum_from total [] = total
  sum_from total (x ∷ xs) = sum_from (add total x) xs

  -- The years of 365 days from one time to another.
  abbrev pub years : Time → Time → F
  years base t = div (hours (duration_since t base)) (of_int (pos 8760))

  -- amount / (1 + rate) ^ years
  abbrev pub present : Time → F → CashFlow F → F
  present base rate f = div f.amount (pow (add (of_int (pos 1)) rate) (years base f.when))

  -- -years * amount / (1 + rate) ^ (years + 1)
  abbrev pub slope_of : Time → F → CashFlow F → F
  slope_of base rate f =
      div (mul (neg (years base f.when)) f.amount)
        (pow (add (of_int (pos 1)) rate) (add (years base f.when) (of_int (pos 1))))

  -- The net value of the flows at the time of the first one, and its derivative by the rate.
  abbrev pub net_value : F → List (CashFlow F) → F
  net_value rate [] = of_int (pos 0)
  net_value rate (f ∷ flows) = sum_from (of_int (pos 0)) (map (present f.when rate) (f ∷ flows))

  abbrev pub slope : F → List (CashFlow F) → F
  slope rate [] = of_int (pos 0)
  slope rate (f ∷ flows) = sum_from (of_int (pos 0)) (map (slope_of f.when rate) (f ∷ flows))

  sum_discounted_lem :
      (base : Time) (rate total : F) (flows : List (CashFlow F))
      → (sum_discounted floats base (add (of_int (pos 1)) rate) total flows ≡ nan)
        ⊎ (sum_discounted floats base (add (of_int (pos 1)) rate) total flows
            ≡ sum_from total (map (present base rate) flows))
  unfolding sum_discounted
  sum_discounted_lem base rate total [] = inr refl
  sum_discounted_lem base rate total (f ∷ flows) =
      let discount = pow (add (of_int (pos 1)) rate) (years base f.when) in
      elim (Bool-cases (eq discount (of_int (pos 0)))) [
        | inl none ↦ inl (rw (none, sum_discounted) refl)
        | inr some ↦
            rw (some, sum_discounted)
              (sum_discounted_lem base rate (add total (div f.amount discount)) flows)
      ]

  sum_slopes_lem :
      (base : Time) (rate total : F) (flows : List (CashFlow F))
      → (sum_slopes floats base (add (of_int (pos 1)) rate) total flows ≡ nan)
        ⊎ (sum_slopes floats base (add (of_int (pos 1)) rate) total flows
            ≡ sum_from total (map (slope_of base rate) flows))
  unfolding sum_slopes
  sum_slopes_lem base rate total [] = inr refl
  sum_slopes_lem base rate total (f ∷ flows) =
      let discount = pow (add (of_int (pos 1)) rate) (add (years base f.when) (of_int (pos 1))) in
      elim (Bool-cases (eq discount (of_int (pos 0)))) [
        | inl none ↦ inl (rw (none, sum_slopes) refl)
        | inr some ↦
            rw (some, sum_slopes)
              (sum_slopes_lem base rate
                (add total (div (mul (neg (years base f.when)) f.amount) discount)) flows)
      ]

  -- The code computes the net value, or gives up with NaN.
  pub xnpv-net_value :
      (rate : F) (flows : List (CashFlow F))
      → (xnpv floats rate flows ≡ nan) ⊎ (xnpv floats rate flows ≡ net_value rate flows)
  unfolding xnpv
  xnpv-net_value rate [] = inr refl
  xnpv-net_value rate (f ∷ flows) =
      elim (Bool-cases (le floats (add (of_int (pos 1)) rate) (of_int (pos 0)))) [
        | inl lost ↦ inl (rw lost refl)
        | inr above ↦ rw above (sum_discounted_lem f.when rate (of_int (pos 0)) (f ∷ flows))
      ]

  pub xnpv_derivative-slope :
      (rate : F) (flows : List (CashFlow F))
      → (xnpv_derivative floats rate flows ≡ nan)
        ⊎ (xnpv_derivative floats rate flows ≡ slope rate flows)
  unfolding xnpv_derivative
  xnpv_derivative-slope rate [] = inr refl
  xnpv_derivative-slope rate (f ∷ flows) =
      elim (Bool-cases (le floats (add (of_int (pos 1)) rate) (of_int (pos 0)))) [
        | inl lost ↦ inl (rw lost refl)
        | inr above ↦ rw above (sum_slopes_lem f.when rate (of_int (pos 0)) (f ∷ flows))
      ]

  -- Two numbers of opposite signs, or of one sign.
  abbrev pub Opposite : F → F → Type 0
  Opposite a b =
      ((lt a (of_int (pos 0)) ≡ true) × (lt (of_int (pos 0)) b ≡ true))
      ⊎ ((lt (of_int (pos 0)) a ≡ true) × (lt b (of_int (pos 0)) ≡ true))

  abbrev pub Alike : F → F → Type 0
  Alike a b =
      ((lt a (of_int (pos 0)) ≡ true) × (lt b (of_int (pos 0)) ≡ true))
      ⊎ ((lt (of_int (pos 0)) a ≡ true) × (lt (of_int (pos 0)) b ≡ true))

  -- A number that is not 0 up to the tolerance.
  abbrev pub Sizeable : F → Type 0
  Sizeable a = (is_nan a ≡ false) × (lt (abs a) (tolerance floats) ≡ false)

  -- What IEEE 754 promises of NaN, of the order and of the signs of products.
  pub record Ieee : Type 0 where
    pub nan_is_nan : is_nan nan ≡ true
    pub nan_far : lt (abs nan) (tolerance floats) ≡ false
    pub nan_spreads : (a d : F) → is_nan (sub a (div nan d)) ≡ true
    pub lt_asym : (a b : F) → lt a b ≡ true → lt b a ≡ false
    pub zero_near : (a : F) → eq a (of_int (pos 0)) ≡ true → lt (abs a) (tolerance floats) ≡ true
    pub negative_product : (a b : F) → lt (mul a b) (of_int (pos 0)) ≡ true → Opposite a b
    pub other_product :
        (a b : F) → Sizeable a → Sizeable b → lt (mul a b) (of_int (pos 0)) ≡ false → Alike a b

  pub Opposite-Alike : (ieee : Ieee) (a b c : F) → Opposite a c → Alike a b → Opposite b c
  Opposite-Alike ieee a b c h k =
      ground (arith, h, k, ieee.lt_asym a (of_int (pos 0)), ieee.lt_asym (of_int (pos 0)) a)

  module _ (ieee : Ieee) (flows : List (CashFlow F)) where
    pub known_value :
        (rate : F)
        → is_nan (xnpv floats rate flows) ≡ false
        → xnpv floats rate flows ≡ net_value rate flows
    known_value rate known = elim (xnpv-net_value rate flows) [
      | inr same ↦ same
      | inl lost ↦ absurd (ground (arith, ap is_nan lost, ieee.nan_is_nan))
    ]

    pub near_value :
        (rate : F)
        → lt (abs (xnpv floats rate flows)) (tolerance floats) ≡ true
        → xnpv floats rate flows ≡ net_value rate flows
    near_value rate near = elim (xnpv-net_value rate flows) [
      | inr same ↦ same
      | inl lost ↦
          absurd (ground (arith, ap (λ v. lt (abs v) (tolerance floats)) lost, ieee.nan_far))
    ]

    pub known_slope :
        (rate : F)
        → is_nan (xnpv_derivative floats rate flows) ≡ false
        → xnpv_derivative floats rate flows ≡ slope rate flows
    known_slope rate known = elim (xnpv_derivative-slope rate flows) [
      | inr same ↦ same
      | inl lost ↦ absurd (ground (arith, ap is_nan lost, ieee.nan_is_nan))
    ]
