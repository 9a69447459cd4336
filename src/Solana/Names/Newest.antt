-- ===== src/Solana/Names/Newest.antt =====
-- solana_client.go: `recentValidators` where one rate is later than all others.
use go_octopi.Base.{
  ℕ, ◌<◌, ◌≡◌, ap, refl, true, false, some, List, [], ◌∷◌, String, String-Eq, Dict, insert, In, All,
  All-map, get_elem?, arith, ◌⊎◌, inl, inr, Bool-cases, ◌==◌,
}
use go_octopi.Base.Int.{ℤ, is_pos}
use go_octopi.Base.Text.{codes}
use go_octopi.Base.Time.{Time, is_zero_time}
use go_octopi.Solana.Names.{
  ValidatorCacheEntry, ValidatorPerformance, text_lt, ranks_before, is_expired, performance_of,
  scan, recent_validators,
}
use go_octopi.Base.Sort.First.{sort-first, take-first}

text_lt_same : (xs : List ℕ) → text_lt xs xs ≡ false
unfolding text_lt
text_lt_same [] = refl
text_lt_same (x ∷ xs) = ground (arith, text_lt_same xs)

itself :
    {F : Type 0} (id : String) (e : ValidatorCacheEntry F)
    → ranks_before (performance_of id e) (performance_of id e) ≡ false
unfolding ranks_before
itself id e = ground (arith, text_lt_same (codes id))

module _ {F : Type 0} (id : String) (e : ValidatorCacheEntry F) (t : Time) where
  abbrev pub Older : String × ValidatorCacheEntry F → Type 0
  Older kv = kv.1.xirr_updated_at < t

  -- The entry itself, or one with an older rate.
  abbrev Newest : String × ValidatorCacheEntry F → Type 0
  Newest kv = (kv ≡ (id, e)) ⊎ Older kv

  All-Newest : (m : Dict String (ValidatorCacheEntry F)) → All Older m → All Newest m
  All-Newest [] h = tt
  All-Newest (kv ∷ m) h = (inr h.0, All-Newest m h.1)

  insert-Newest :
      (m : Dict String (ValidatorCacheEntry F))
      → All Older m
      → In (id, e) (insert id e m) × All Newest (insert id e m)
  unfolding insert
  insert-Newest [] h = (inl refl, (inl refl, tt))
  insert-Newest ((k, v) ∷ m) h = elim (Bool-cases (k == id)) [
    | inl same ↦ rw same (inl refl, (inl refl, All-Newest m h.1))
    | inr other ↦ let (i, a) = insert-Newest m h.1 in rw other (inr i, (inr h.0, a))
  ]

  abbrev Latest : ValidatorPerformance F → Type 0
  Latest p = (p ≡ performance_of id e) ⊎ (p.updated_at < t)

  scan-Latest :
      (now : Time) (m : Dict String (ValidatorCacheEntry F))
      → All Newest m
      → All Latest (scan now m).0
  unfolding scan
  scan-Latest now [] h = tt
  scan-Latest now ((k, v) ∷ m) h =
      let rest = scan-Latest now m h.1 in
      let here : Latest (performance_of k v) = elim h.0 [
        | inl same ↦ inl (ap (λ kv. performance_of kv.0 kv.1) same)
        | inr older ↦ inr older
      ] in
      elim (Bool-cases (is_zero_time v.xirr_updated_at)) [
        | inl unrated ↦ rw unrated rest
        | inr rated ↦ elim (Bool-cases (is_expired now v)) [
          | inl gone ↦ rw (rated, gone) rest
          | inr alive ↦ rw (rated, alive) (here, rest)
        ]
      ]

  scan-In :
      (now : Time) (m : Dict String (ValidatorCacheEntry F))
      → In (id, e) m
      → is_zero_time e.xirr_updated_at ≡ false
      → is_expired now e ≡ false
      → In (performance_of id e) (scan now m).0
  unfolding scan
  scan-In now [] i rated alive = absurd i
  scan-In now ((k, v) ∷ m) (inl same) rated alive =
      let entry : e ≡ v = ap (λ kv. kv.1) same in
      let is_rated : is_zero_time v.xirr_updated_at ≡ false = rw (← entry) rated in
      let left : is_expired now v ≡ false = rw (← entry) alive in
      rw (is_rated, left) (inl (ap (λ kv. performance_of kv.0 kv.1) same))
  scan-In now ((k, v) ∷ m) (inr i) rated alive =
      let there = scan-In now m i rated alive in
      elim (Bool-cases (is_zero_time v.xirr_updated_at)) [
        | inl unrated ↦ rw unrated there
        | inr is_rated ↦ elim (Bool-cases (is_expired now v)) [
          | inl gone ↦ rw (is_rated, gone) there
          | inr left ↦ rw (is_rated, left) (inr there)
        ]
      ]

  ranks_first :
      (p : ValidatorPerformance F)
      → e.xirr_updated_at ≡ t
      → Latest p
      → (p ≡ performance_of id e)
        ⊎ ((ranks_before (performance_of id e) p ≡ true)
            × (ranks_before p (performance_of id e) ≡ false))
  unfolding ranks_before
  ranks_first p at (inl same) = inl same
  ranks_first p at (inr older) = inr (ground arith, ground arith)

  -- With an entry that is the latest, `recentValidators` lists it first.
  pub recent_validators-first :
      (now : Time) (limit : ℤ) (m : Dict String (ValidatorCacheEntry F))
      → is_pos limit ≡ true
      → e.xirr_updated_at ≡ t
      → 0 < t
      → is_expired now e ≡ false
      → All Older m
      → get_elem? (recent_validators now limit (insert id e m)).0 0 ≡ some (performance_of id e)
  unfolding recent_validators
  recent_validators-first now limit m asked at later alive old =
      let (i, a) = insert-Newest m old in
      let all = (scan now (insert id e m)).0 in
      let there = scan-In now (insert id e m) i (ground arith) alive in
      let below =
        All-map Latest _ all (λ p h. ranks_first p at h) (scan-Latest now (insert id e m) a) in
      let (rest, first) =
        sort-first ranks_before (performance_of id e) (itself id e) all there below in
      rw (asked, first) (take-first limit (performance_of id e) rest asked)
