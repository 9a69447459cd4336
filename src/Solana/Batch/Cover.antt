-- ===== src/Solana/Batch/Cover.antt =====
-- solana_client.go: `batchSignatures` cuts a list into batches, and `GetTransactions` asks for each
-- signature once.
use go_octopi.Base.{
  ℕ, zero, suc, ◌≤◌, ◌<◌, ◌≡◌, refl, sym, ◌↔◌, ◌≢◌, ap, ◌∙◌, Bool, true, false, ◌||◌, some, List,
  [], ◌∷◌, ◌++◌, String, length, take, drop, arith, All, In, inl, inr, ◌==◌, eq_iff, String-Eq,
  Bool-cases, length-drop, length-take, take-append-drop,
}
use go_octopi.Base.Int.{pos}
use go_octopi.Solana.Batch.{slices, batch_signatures, is_seen, unique_from, unique_signatures}

-- All batches in one list.
abbrev pub joined : List (List String) → List String
joined [] = []
joined (b ∷ bs) = b ++ joined bs

-- What a batch of at most `size` signatures is.
abbrev pub Batch : ℕ → List String → Type 0
Batch size b = (0 < length b) × (length b ≤ size)

slices-joined :
    (fuel size : ℕ) (sigs : List String)
    → 0 < size
    → length sigs ≤ fuel
    → (joined (slices fuel size sigs) ≡ sigs) × All (Batch size) (slices fuel size sigs)
unfolding slices
slices-joined zero size [] p h = (refl, tt)
slices-joined zero size (s ∷ sigs) p h = absurd (omega arith)
slices-joined (suc fuel) size [] p h = (refl, tt)
slices-joined (suc fuel) size (s ∷ sigs) p h =
    let (whole, each) =
      slices-joined fuel size (drop size (s ∷ sigs)) p
        (omega (arith, length-drop size (s ∷ sigs))) in
    (
      ap (◌++◌ (take size (s ∷ sigs))) whole ∙ take-append-drop size (s ∷ sigs),
      (
        (omega (arith, length-take size (s ∷ sigs)), omega (arith, length-take size (s ∷ sigs))),
        each,
      ),
    )

-- With a positive size `batchSignatures` does not panic, and cuts the signatures, in order and none
-- lost or repeated, into batches that are not empty and hold at most `size` signatures.
pub batch_signatures-joined :
    (sigs : List String) (size : ℕ)
    → (bs : List (List String)) × (batch_signatures sigs (pos (suc size)) ≡ some bs)
      × (joined bs ≡ sigs)
      × All (Batch (suc size)) bs
unfolding batch_signatures
batch_signatures-joined sigs size =
    let (whole, each) = slices-joined (length sigs) (suc size) sigs (omega arith) (omega arith) in
    (slices (length sigs) (suc size) sigs, ground arith, whole, each)

is_seen-In : (s : String) (l : List String) → is_seen s l ≡ true → In s l
unfolding is_seen
is_seen-In s [] h = cc
is_seen-In s (t ∷ l) h = elim (Bool-cases (t == s)) [
  | inl here ↦ inl (sym ((eq_iff t s).0 here))
  | inr other ↦ inr (is_seen-In s l (ground arith))
]

In-is_seen : (s : String) (l : List String) → In s l → is_seen s l ≡ true
unfolding is_seen
In-is_seen s [] i = absurd i
In-is_seen s (t ∷ l) (inl e) = ground (arith, eq_iff t s)
In-is_seen s (t ∷ l) (inr i) = ground (arith, In-is_seen s l i)

abbrev skipped : List String → String → Bool
skipped seen sig = (sig == "") || is_seen sig seen

kept_sound :
    (seen : List String) (sig : String) (sigs : List String) (s : String)
    → skipped seen sig ≡ false
    → In s (sig ∷ unique_from (sig ∷ seen) sigs)
    → (In s (unique_from (sig ∷ seen) sigs)
        → In s sigs × (s ≢ "") × (is_seen s (sig ∷ seen) ≡ false))
    → In s (sig ∷ sigs) × (s ≢ "") × (is_seen s seen ≡ false)
unfolding is_seen
kept_sound seen sig sigs s keep (inl e) ih =
    (inl e, ground (arith, eq_iff sig ""), ground (arith, eq_iff sig ""))
kept_sound seen sig sigs s keep (inr i) ih = let r = ih i in (inr r.0, r.1, ground (arith, r.2))

-- What is kept is not empty, was not seen, and stands in the list.
unique_from_sound :
    (seen sigs : List String) (s : String)
    → In s (unique_from seen sigs)
    → In s sigs × (s ≢ "") × (is_seen s seen ≡ false)
unfolding unique_from
unique_from_sound seen [] s i = absurd i
unique_from_sound seen (sig ∷ sigs) s i = elim (Bool-cases (skipped seen sig)) [
  | inl skip ↦
      let r = unique_from_sound seen sigs s (rw (skip, unique_from) at i) in (inr r.0, r.1, r.2)
  | inr keep ↦
      kept_sound seen sig sigs s keep (rw (keep, unique_from) at i)
        (unique_from_sound (sig ∷ seen) sigs s)
]

later_of :
    (sig : String) (sigs : List String) (s : String)
    → (sig == s) ≡ false
    → In s (sig ∷ sigs)
    → In s sigs
later_of sig sigs s other (inl e) = absurd (ground (arith, eq_iff sig s))
later_of sig sigs s other (inr i) = i

unseen_of :
    (seen : List String) (sig s : String)
    → (sig == s) ≡ false
    → is_seen s seen ≡ false
    → is_seen s (sig ∷ seen) ≡ false
unfolding is_seen
unseen_of seen sig s other h = ground arith

other_of :
    (seen : List String) (sig : String) (sigs : List String) (s : String)
    → skipped seen sig ≡ true
    → In s (sig ∷ sigs)
    → s ≢ ""
    → is_seen s seen ≡ false
    → In s sigs
other_of seen sig sigs s skip (inl e) n h = absurd (ground (arith, eq_iff sig ""))
other_of seen sig sigs s skip (inr i) n h = i

unique_from_complete :
    (seen sigs : List String) (s : String)
    → In s sigs
    → s ≢ ""
    → is_seen s seen ≡ false
    → In s (unique_from seen sigs)
unfolding unique_from
unique_from_complete seen [] s i n h = absurd i
unique_from_complete seen (sig ∷ sigs) s i n h = elim (Bool-cases (skipped seen sig)) [
  | inl skip ↦
      rw (skip, unique_from)
        (unique_from_complete seen sigs s (other_of seen sig sigs s skip i n h) n h)
  | inr keep ↦ elim (Bool-cases (sig == s)) [
    | inl same ↦ rw (keep, unique_from) (inl (sym ((eq_iff sig s).0 same)))
    | inr other ↦
        rw (keep, unique_from)
          (inr (
            unique_from_complete (sig ∷ seen) sigs s (later_of sig sigs s other i) n
              (unseen_of seen sig s other h)))
  ]
]

never_again :
    (seen : List String) (sig : String) (sigs : List String) → is_seen sig (sig ∷ seen) ≡ false → ⊥
unfolding is_seen
never_again seen sig sigs h = ground (arith, eq_iff sig sig)

abbrev pub Distinct : List String → Type 0
Distinct [] = Unit
Distinct (s ∷ l) = (¬ In s l) × Distinct l

unique_from-Distinct : (seen sigs : List String) → Distinct (unique_from seen sigs)
unfolding unique_from
unique_from-Distinct seen [] = tt
unique_from-Distinct seen (sig ∷ sigs) = elim (Bool-cases (skipped seen sig)) [
  | inl skip ↦ rw (skip, unique_from) (unique_from-Distinct seen sigs)
  | inr keep ↦
      rw (keep, unique_from)
        (
          λ i. absurd (never_again seen sig sigs (unique_from_sound (sig ∷ seen) sigs sig i).2),
          unique_from-Distinct (sig ∷ seen) sigs,
        )
]

-- `GetTransactions` asks for exactly the signatures that it was given and that are not empty, each of
-- them once.
pub unique_signatures-Distinct :
    (sigs : List String)
    → Distinct (unique_signatures sigs)
      × ((s : String) → In s (unique_signatures sigs) ↔ (In s sigs × (s ≢ "")))
unfolding unique_signatures is_seen
unique_signatures-Distinct sigs = (
  unique_from-Distinct [] sigs,
  λ s. (
    λ i. let r = unique_from_sound [] sigs s i in (r.0, r.1),
    λ h. unique_from_complete [] sigs s h.0 h.1 refl,
  ),
)
