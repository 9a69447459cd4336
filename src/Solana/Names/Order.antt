-- ===== src/Solana/Names/Order.antt =====
-- solana_client.go: the order of `recentValidators`, and what sorting and cutting by it keep.
use go_octopi.Base.{
  ℕ, zero, suc, ◌≤◌, ◌<◌, ◌≡◌, ◌⊎◌, ap, refl, true, false, List, [], ◌∷◌, take, length, inl, inr,
  arith, All, In, Bool-cases,
}
use go_octopi.Base.Int.{ℤ, pos, negsuc, is_pos, to_ℕ}
use go_octopi.Base.Sort.{sort, insert_sorted, Sorted, Leads}
use go_octopi.Base.Text.{codes}
use go_octopi.Solana.Names.{ValidatorPerformance, text_lt, ranks_before}

text_lt_asym : (xs ys : List ℕ) → text_lt xs ys ≡ true → text_lt ys xs ≡ false
unfolding text_lt
text_lt_asym [] [] h = ground arith
text_lt_asym [] (y ∷ ys) h = ground arith
text_lt_asym (x ∷ xs) [] h = ground arith
text_lt_asym (x ∷ xs) (y ∷ ys) h = ground (arith, text_lt_asym xs ys)

text_lt_trans :
    (xs ys zs : List ℕ) → text_lt ys xs ≡ false → text_lt zs ys ≡ false → text_lt zs xs ≡ false
unfolding text_lt
text_lt_trans [] ys zs h k = refl
text_lt_trans (x ∷ xs) [] zs h k = absurd (ground arith)
text_lt_trans (x ∷ xs) (y ∷ ys) [] h k = absurd (ground arith)
text_lt_trans (x ∷ xs) (y ∷ ys) (z ∷ zs) h k = ground (arith, text_lt_trans xs ys zs)

pub not_positive : (limit : ℤ) → is_pos limit ≡ false → to_ℕ limit ≡ 0
not_positive (pos zero) h = refl
not_positive (pos (suc n)) h = absurd (ground arith)
not_positive (negsuc n) h = refl

module _ {F : Type 0} where
  pub ranks_before_asym :
      (a b : ValidatorPerformance F) → ranks_before a b ≡ true → ranks_before b a ≡ false
  unfolding ranks_before
  ranks_before_asym a b h =
      ground (arith, text_lt_asym (codes a.vote_account) (codes b.vote_account))

  pub ranks_before_trans :
      (a b c : ValidatorPerformance F)
      → ranks_before b a ≡ false
      → ranks_before c b ≡ false
      → ranks_before c a ≡ false
  unfolding ranks_before
  ranks_before_trans a b c h k =
      ground
        (arith, text_lt_trans (codes a.vote_account) (codes b.vote_account) (codes c.vote_account))

  Leads-take :
      (n : ℕ) (x : ValidatorPerformance F) (l : List (ValidatorPerformance F))
      → Leads ranks_before x l
      → Leads ranks_before x (take n l)
  Leads-take zero x l h = tt
  Leads-take (suc n) x [] h = tt
  Leads-take (suc n) x (y ∷ l) h = (h.0, Leads-take n x l h.1)

  pub Sorted-take :
      (n : ℕ) (l : List (ValidatorPerformance F))
      → Sorted ranks_before l
      → Sorted ranks_before (take n l)
  Sorted-take zero l h = tt
  Sorted-take (suc n) [] h = tt
  Sorted-take (suc n) (x ∷ l) h = (Leads-take n x l h.0, Sorted-take n l h.1)

  pub take-All :
      (P : ValidatorPerformance F → Type 0) (n : ℕ) (l : List (ValidatorPerformance F))
      → All P l
      → All P (take n l)
  take-All P zero l h = tt
  take-All P (suc n) [] h = tt
  take-All P (suc n) (x ∷ l) h = (h.0, take-All P n l h.1)

  -- `a` was rated later than `b`, or at the same time under an account that is not behind.
  abbrev pub Before : ValidatorPerformance F → ValidatorPerformance F → Type 0
  Before a b =
      (b.updated_at < a.updated_at)
      ⊎ ((a.updated_at ≡ b.updated_at)
          × (text_lt (codes b.vote_account) (codes a.vote_account) ≡ false))

  -- Each stands before all that follow.
  abbrev pub LatestFirst : List (ValidatorPerformance F) → Type 0
  LatestFirst [] = Unit
  LatestFirst (a ∷ l) = All (Before a) l × LatestFirst l

  Before_lem : (a b : ValidatorPerformance F) → ranks_before b a ≡ false → Before a b
  unfolding ranks_before
  Before_lem a b h = ground arith

  Leads-Before :
      (a : ValidatorPerformance F) (l : List (ValidatorPerformance F))
      → Leads ranks_before a l
      → All (Before a) l
  Leads-Before a [] h = tt
  Leads-Before a (b ∷ l) h = (Before_lem a b h.0, Leads-Before a l h.1)

  pub Sorted-LatestFirst :
      (l : List (ValidatorPerformance F)) → Sorted ranks_before l → LatestFirst l
  Sorted-LatestFirst [] h = tt
  Sorted-LatestFirst (a ∷ l) h = (Leads-Before a l h.0, Sorted-LatestFirst l h.1)

  insert_sorted-In :
      (p x : ValidatorPerformance F) (l : List (ValidatorPerformance F))
      → In p (x ∷ l)
      → In p (insert_sorted ranks_before x l)
  unfolding insert_sorted
  insert_sorted-In p x [] h = h
  insert_sorted-In p x (y ∷ l) h = elim (Bool-cases (ranks_before y x)) [
    | inr above ↦ rw above h
    | inl below ↦ rw below (elim h [
      | inl here ↦ inr (insert_sorted-In p x l (inl here))
      | inr (inl next) ↦ inl next
      | inr (inr i) ↦ inr (insert_sorted-In p x l (inr i))
    ])
  ]

  pub sort-In :
      (p : ValidatorPerformance F) (l : List (ValidatorPerformance F))
      → In p l
      → In p (sort ranks_before l)
  unfolding sort
  sort-In p [] i = i
  sort-In p (x ∷ l) (inl here) = insert_sorted-In p x (sort ranks_before l) (inl here)
  sort-In p (x ∷ l) (inr i) = insert_sorted-In p x (sort ranks_before l) (inr (sort-In p l i))

  Before-le :
      (a p : ValidatorPerformance F) (l : List (ValidatorPerformance F))
      → All (Before a) l
      → In p l
      → p.updated_at ≤ a.updated_at
  Before-le a p [] h i = absurd i
  Before-le a p (x ∷ l) h (inl same) = rw same (ground (arith, h.0))
  Before-le a p (x ∷ l) h (inr i) = Before-le a p l h.1 i

  -- What is cut off is not later than what is left, which is as much as was asked for.
  pub take-In :
      (n : ℕ) (p : ValidatorPerformance F) (l : List (ValidatorPerformance F))
      → LatestFirst l
      → In p l
      → In p (take n l)
        ⊎ ((length (take n l) ≡ n) × All (λ q. p.updated_at ≤ q.updated_at) (take n l))
  take-In zero p l h i = inr (refl, tt)
  take-In (suc n) p [] h i = absurd i
  take-In (suc n) p (x ∷ l) h (inl same) = inl (inl same)
  take-In (suc n) p (x ∷ l) h (inr i) = elim (take-In n p l h.1 i) [
    | inl kept ↦ inl (inr kept)
    | inr (full, below) ↦ inr (ap suc full, (Before-le x p l h.0 i, below))
  ]
