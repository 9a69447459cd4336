-- ===== src/Server/Xirr/Halves.antt =====
-- server.go: the rate at which `bisectXIRR` ends.
use go_octopi.Base.{
  ℕ, zero, suc, ◌+◌, ◌≡◌, true, false, ◌||◌, Option, none, some, List, inl, inr, ◌⊎◌, arith,
  Bool-cases, drop, sym,
}
use go_octopi.Base.Int.{pos}
use go_octopi.Server.Floats.{Floats}
use go_octopi.Server.Flows.{CashFlow}
use go_octopi.Server.Xirr.{
  xnpv, tolerance, points, bracket_xirr, middle, bisect_from, bisect_xirr, bisect_bracket,
}
use go_octopi.Server.Xirr.Brackets.{
  Straddles, at_zero, apart, Neighbours, Between, AtMost, Ordered, Rising-at, bottom, top,
  bracket_from-Straddles,
}
use go_octopi.Server.Xirr.Sums.{Ieee, Sizeable, Opposite, Opposite-Alike, net_value, known_value}

module _ {F : Type 0} (floats : Floats F) where
  open floats use {add, sub, mul, div, lt, abs, of_int, decimal, is_nan}

  -- What is left of an interval when it has been halved so many times.
  pub data Halved (low high : F) : ℕ → F → F → Type 0 where
    whole : Halved low high 0 low high
    left :
        (n : ℕ) (l h : F)
        → Halved low high n l h
        → Halved low high (suc n) l (div (add l h) (of_int (pos 2)))
    right :
        (n : ℕ) (l h : F)
        → Halved low high n l h
        → Halved low high (suc n) (div (add l h) (of_int (pos 2))) h

  -- A rate at which the flows nearly balance, or the middle of what is left of an interval: at its ends the
  -- net values have opposite signs, and it is narrower than 1e-7, or has been halved 100 times. Where the
  -- flows nearly balance at the interval's lower end, nothing more is known.
  pub data Pinned (flows : List (CashFlow F)) (low high r : F) : Type 0 where
    balanced :
        lt (abs (net_value floats r flows)) (tolerance floats) ≡ true → Pinned flows low high r
    halved :
        (n : ℕ) (l h : F)
        → Halved low high n l h
        → Opposite floats (net_value floats l flows) (net_value floats h flows)
        → r ≡ div (add l h) (of_int (pos 2))
        → Between floats l h r
        → (lt (abs (sub h l)) (decimal (pos 1) 7) ≡ true) ⊎ (n ≡ 100)
        → Pinned flows low high r
    low_end :
        lt (abs (net_value floats low flows)) (tolerance floats) ≡ true → Pinned flows low high r

  module _ (ordered : Ordered floats) (ieee : Ieee floats) (flows : List (CashFlow F)) where
    open ordered use {at_most_trans, middle_between}

    -- An interval of the points, with a change of sign that is not too near to zero.
    record Changes (l h : F) : Type 0 where
      from_bottom : AtMost floats (bottom floats) l
      rising : AtMost floats l h
      to_top : AtMost floats h (top floats)
      known : is_nan (xnpv floats h flows) ≡ false
      sizeable : Sizeable floats (xnpv floats l flows)
      signs : Opposite floats (xnpv floats l flows) (xnpv floats h flows)

    net_signs :
        (l h : F)
        → Changes l h
        → Opposite floats (net_value floats l flows) (net_value floats h flows)
    net_signs l h c =
        let low = known_value floats ieee flows l c.sizeable.0 in
        let high = known_value floats ieee flows h c.known in rw (← low, ← high) c.signs

    bisect_from-Pinned :
        (rounds n : ℕ) (low high l h r : F)
        → rounds + n ≡ 100
        → Halved low high n l h
        → Changes l h
        → bisect_from floats rounds flows l h (xnpv floats l flows) ≡ some r
        → Pinned flows low high r × Between floats l h r
    unfolding bisect_from
    bisect_from-Pinned zero n low high l h r spent part c e =
        let same : middle floats l h ≡ r = ground arith in
        let inside : Between floats l h r =
          rw (← same) (middle_between l h c.from_bottom c.rising c.to_top) in
        (halved n l h part (net_signs l h c) (sym same) inside (inr (omega (arith, spent))), inside)
    bisect_from-Pinned (suc rounds) n low high l h r spent part c e =
        let mid = middle floats l h in
        let value = xnpv floats mid flows in
        let (above, below) = middle_between l h c.from_bottom c.rising c.to_top in
        elim (Bool-cases (is_nan value)) [
          | inl unknown ↦ absurd (ground arith)
          | inr known ↦ elim (Bool-cases (lt (abs value) (tolerance floats))) [
            | inl near ↦
                let same : mid ≡ r = ground arith in
                let net = known_value floats ieee flows mid known in
                rw (← same) (balanced (rw net at near), (above, below))
            | inr far ↦ elim (Bool-cases (lt (abs (sub h l)) (decimal (pos 1) 7))) [
              | inl narrow ↦
                  let same : mid ≡ r = ground arith in
                  let inside : Between floats l h r = rw (← same) (above, below) in
                  (halved n l h part (net_signs l h c) (sym same) inside (inl narrow), inside)
              | inr wide ↦
                  elim (Bool-cases (lt (mul (xnpv floats l flows) value) (of_int (pos 0)))) [
                    | inl opposite ↦
                        let (p, inside) =
                          bisect_from-Pinned rounds (suc n) low high l mid r (omega (arith, spent))
                            (left n l h part)
                            (record {
                              from_bottom = c.from_bottom;
                              rising = above;
                              to_top = at_most_trans mid h (top floats) below c.to_top;
                              known = known;
                              sizeable = c.sizeable;
                              signs = ieee.negative_product (xnpv floats l flows) value opposite;
                            })
                            (rw (known, far, wide, opposite, bisect_from) at e) in
                        (p, (inside.0, at_most_trans r mid h inside.1 below))
                    | inr alike ↦
                        let sizeable : Sizeable floats value = (known, far) in
                        let (p, inside) =
                          bisect_from-Pinned rounds (suc n) low high mid h r (omega (arith, spent))
                            (right n l h part)
                            (record {
                              from_bottom = at_most_trans (bottom floats) l mid c.from_bottom above;
                              rising = below;
                              to_top = c.to_top;
                              known = c.known;
                              sizeable = sizeable;
                              signs =
                                  Opposite-Alike floats ieee (xnpv floats l flows) value
                                    (xnpv floats h flows) c.signs
                                    (ieee.other_product (xnpv floats l flows) value c.sizeable
                                      sizeable alike);
                            })
                            (rw (known, far, wide, alike, bisect_from) at e) in
                        (p, (at_most_trans l mid r above inside.0, inside.1))
                  ]
            ]
          ]
        ]

    changes :
        (p q : F)
        → Straddles floats flows p q
        → lt (abs (net_value floats p flows)) (tolerance floats) ≡ false
        → Opposite floats (net_value floats p flows) (net_value floats q flows)
    changes p q (at_zero x flat) far =
        absurd (ground (arith, ieee.zero_near (net_value floats x flows) flat))
    changes p q (apart x y signs) far = signs

    bisect_xirr-Pinned :
        (low high r : F)
        → Straddles floats flows low high
        → AtMost floats (bottom floats) low
        → AtMost floats low high
        → AtMost floats high (top floats)
        → bisect_xirr floats flows low high ≡ some r
        → Pinned flows low high r
    unfolding bisect_xirr
    bisect_xirr-Pinned low high r straddle b l t e =
        let a = xnpv floats low flows in
        let z = xnpv floats high flows in
        elim (Bool-cases (is_nan a || is_nan z || lt (of_int (pos 0)) (mul a z))) [
          | inl stuck ↦ absurd (ground arith)
          | inr fine ↦
              let known : is_nan a ≡ false = ground arith in
              let known_high : is_nan z ≡ false = ground arith in
              let here = known_value floats ieee flows low known in
              let there = known_value floats ieee flows high known_high in
              elim (Bool-cases (lt (abs a) (tolerance floats))) [
                | inl near ↦ low_end (rw here at near)
                | inr far ↦
                    let net_far : lt (abs (net_value floats low flows)) (tolerance floats) ≡ false =
                      rw here at far in
                    let net = changes low high straddle net_far in
                    let signs : Opposite floats a z = rw (here, there) net in
                    (bisect_from-Pinned 100 0 low high low high r (omega arith) whole
                      (record {
                        from_bottom = b;
                        rising = l;
                        to_top = t;
                        known = known_high;
                        sizeable = (known, far);
                        signs = signs;
                      })
                      (rw (fine, bisect_xirr) at e)).0
              ]
        ]

    -- Two neighbours of the points, with a change of sign, between which the rate is pinned.
    abbrev pub Enclosed : F → Type 0
    Enclosed r =
        (low : F) × (high : F) × Straddles floats flows low high
        × Neighbours floats flows low high (bottom floats) (drop 1 (points floats))
        × Pinned flows low high r

    pub bisect_bracket-Enclosed :
        (found : Option (F × F)) (r : F)
        → bracket_xirr floats flows ≡ found
        → bisect_bracket floats flows found ≡ some r
        → Enclosed r
    unfolding bracket_xirr
    bisect_bracket-Enclosed none r e h = absurd (ground arith)
    bisect_bracket-Enclosed (some (low, high)) r e h =
        let (straddle, near) =
          bracket_from-Straddles floats flows ieee (bottom floats) low high (drop 1 (points floats))
            e in
        let (b, l, t) =
          Rising-at floats ordered flows low high (bottom floats) (drop 1 (points floats))
            ordered.points_rise near in
        (low, high, straddle, near, bisect_xirr-Pinned low high r straddle b l t h)
