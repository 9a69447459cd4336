-- ===== src/Tips/Intervals/Lowest.antt =====
-- jito_tips.go: the slot from which `collectJitoTipsWindow` looks at signatures.
use go_octopi.Base.{
  ℕ, ◌≤◌, ◌≡◌, some, List, [], ◌∷◌, Dict, lookup, In, arith, ltb, nat_eq, inl, inr, ℕ-Eq,
  Option-cases, Bool-cases,
}
use go_octopi.Base.Word.{u64_max}
use go_octopi.Tips.Intervals.{SlotInterval, lowest_start, min_allowed_slot}

lowest_start-le : (es : List ℕ) (m : Dict ℕ SlotInterval) (low : ℕ) → lowest_start es m low ≤ low
unfolding lowest_start
lowest_start-le [] m low = omega arith
lowest_start-le (e ∷ es) m low = elim (Option-cases (lookup e m)) [
  | inl missing ↦ rw missing (lowest_start-le es m low)
  | inr (iv, found) ↦ elim (Bool-cases (ltb iv.start low)) [
    | inl lower ↦ rw (found, lower) (ground (arith, lowest_start-le es m iv.start))
    | inr higher ↦ rw (found, higher) (lowest_start-le es m low)
  ]
]

lowest_start-start :
    (es : List ℕ) (m : Dict ℕ SlotInterval) (low e : ℕ) (iv : SlotInterval)
    → In e es
    → lookup e m ≡ some iv
    → lowest_start es m low ≤ iv.start
unfolding lowest_start
lowest_start-start [] m low e iv i found = elim i [ ]
lowest_start-start (e' ∷ es) m low e iv (inr i) found = lowest_start-start es m _ e iv i found
lowest_start-start (e' ∷ es) m low e iv (inl same) found =
    let here : lookup e' m ≡ some iv = rw (← same) found in
    elim (Bool-cases (ltb iv.start low)) [
      | inl lower ↦ rw (here, lower) (lowest_start-le es m iv.start)
      | inr higher ↦ rw (here, higher) (ground (arith, lowest_start-le es m low))
    ]

-- No slot of an allowed epoch counts as old: the lowest slot that is looked at is not behind the first
-- slot of any allowed epoch that has an interval.
pub min_allowed_slot-le :
    (es : List ℕ) (m : Dict ℕ SlotInterval) (e : ℕ) (iv : SlotInterval)
    → In e es
    → lookup e m ≡ some iv
    → min_allowed_slot es m ≤ iv.start
unfolding min_allowed_slot
min_allowed_slot-le es m e iv i found =
    elim (Bool-cases (nat_eq (lowest_start es m u64_max) u64_max)) [
      | inl top ↦ rw top (omega arith)
      | inr below ↦ rw below (lowest_start-start es m u64_max e iv i found)
    ]
