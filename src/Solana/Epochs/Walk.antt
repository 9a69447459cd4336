-- ===== src/Solana/Epochs/Walk.antt =====
-- solana_client.go: which epochs and slots the cache of epoch boundaries holds after a refresh.
use go_octopi.Base.{
  ℕ, zero, suc, ◌+◌, ◌-◌, ◌*◌, ◌<◌, ◌≤◌, ◌≡◌, refl, true, ◌||◌, Option, none, some, List, [], ◌∷◌,
  last?, ltb, arith, inl, inr, ◌⊎◌, get_elem?, Bool-cases,
}
use go_octopi.Base.Fault.{Error, Result, ok, err}
use go_octopi.Base.Time.{Time, is_before}
use go_octopi.Solana.Epochs.{block_time_at, walk}
use go_octopi.Solana.Rpc.{Transport, State}
use go_octopi.Solana.Types.{EpochBoundary}
use go_octopi.Solana.Wire.{Codec}

-- The i-th boundary is that of the epoch `i` before the first one, which ends `i` times the slots of
-- an epoch before it.
abbrev pub Steps : ℕ → ℕ → ℕ → List EpochBoundary → Type 0
Steps slots epoch slot bs =
    (i : ℕ) (b : EpochBoundary)
    → get_elem? bs i ≡ some b
    → (b.epoch + i ≡ epoch) × (b.end_slot + i * slots ≡ slot)

-- Nothing in the window is missing behind the last boundary.
abbrev pub Ends : ℕ → Time → EpochBoundary → Type 0
Ends slots min_end b = (b.end_time < min_end) ⊎ (b.epoch ≡ 0) ⊎ (b.end_slot < slots)

-- What the loop of a refresh gives.
pub record Walked (slots : ℕ) (min_end : Time) (epoch slot : ℕ) (bs : List EpochBoundary)
    : Type 0 where
  pub steps : Steps slots epoch slot bs
  pub last : EpochBoundary
  pub has_last : last? bs ≡ some last
  pub ends : Ends slots min_end last

one :
    (slots epoch slot : ℕ) (b : EpochBoundary)
    → b.epoch ≡ epoch
    → b.end_slot ≡ slot
    → Steps slots epoch slot (b ∷ [])
one slots epoch slot b e f zero c h = (ground arith, ground arith)
one slots epoch slot b e f (suc i) c h = cc

more :
    (slots epoch slot : ℕ) (b : EpochBoundary) (bs : List EpochBoundary)
    → b.epoch ≡ suc epoch
    → b.end_slot ≡ slot
    → slots ≤ slot
    → Steps slots epoch (slot - slots) bs
    → Steps slots (suc epoch) slot (b ∷ bs)
more slots epoch slot b bs e f l h zero c k = (ground arith, ground arith)
more slots epoch slot b bs e f l h (suc i) c k = let (p, q) = h i c k in (omega arith, omega arith)

last-more :
    (b : EpochBoundary) (bs : List EpochBoundary) (l : EpochBoundary)
    → last? bs ≡ some l
    → last? (b ∷ bs) ≡ some l
last-more b [] l h = cc
last-more b (c ∷ bs) l h = h

abbrev boundary : ℕ → ℕ → Time → EpochBoundary
boundary epoch slot t = record { epoch = epoch; end_slot = slot; end_time = t }

Walked-alone :
    (slots : ℕ) (min_end : Time) (epoch slot : ℕ) (t : Time)
    → Ends slots min_end (boundary epoch slot t)
    → Walked slots min_end epoch slot (boundary epoch slot t ∷ [])
Walked-alone slots min_end epoch slot t e = record {
  steps = one slots epoch slot (boundary epoch slot t) refl refl;
  last = boundary epoch slot t;
  has_last = refl;
  ends = e;
}

Walked-more :
    (slots : ℕ) (min_end : Time) (epoch slot : ℕ) (t : Time) (rest : List EpochBoundary)
    → slots ≤ slot
    → Walked slots min_end epoch (slot - slots) rest
    → Walked slots min_end (suc epoch) slot (boundary (suc epoch) slot t ∷ rest)
Walked-more slots min_end epoch slot t rest fits w = record {
  steps = more slots epoch slot (boundary (suc epoch) slot t) rest refl refl fits w.steps;
  last = w.last;
  has_last = last-more (boundary (suc epoch) slot t) rest w.last w.has_last;
  ends = w.ends;
}

stopped :
    (min_end t slot slots epoch : ℕ)
    → (is_before t min_end || ltb slot slots) ≡ true
    → Ends slots min_end (boundary epoch slot t)
stopped min_end t slot slots epoch h = elim (Bool-cases (ltb t min_end)) [
  | inl early ↦ inl (ground arith)
  | inr late ↦ inr (inr (ground arith))
]

-- How a call may end.
pub call_cases :
    {A S : Type 0} (o : Option (Result A × S))
    → (o ≡ none)
      ⊎ ((e : Error) × (s : S) × (o ≡ some (err e, s)))
      ⊎ ((a : A) × (s : S) × (o ≡ some (ok a, s)))
call_cases none = inl refl
call_cases (some (err e, s)) = inr (inl (e, s, refl))
call_cases (some (ok a, s)) = inr (inr (a, s, refl))

module _ (net : Transport) (codec : Codec) (fuel : ℕ) where
  pub walk-Walked :
      (slots : ℕ) (min_end : Time) (epoch slot : ℕ) (s s' : State net) (bs : List EpochBoundary)
      → walk net codec fuel slots min_end epoch slot s ≡ some (ok bs, s')
      → Walked slots min_end epoch slot bs
  unfolding walk
  walk-Walked slots min_end zero slot s s' bs h =
      elim (call_cases (block_time_at net codec fuel slot s)) [
        | inl stuck ↦ absurd (ground arith)
        | inr (inl (e, s1, failed)) ↦ absurd (ground arith)
        | inr (inr (t, s1, read)) ↦
            let same : boundary 0 slot t ∷ [] ≡ bs = ground arith in
            rw (← same) (Walked-alone slots min_end 0 slot t (inr (inl refl)))
      ]
  walk-Walked slots min_end (suc epoch) slot s s' bs h =
      elim (call_cases (block_time_at net codec fuel slot s)) [
        | inl stuck ↦ absurd (ground arith)
        | inr (inl (e, s1, failed)) ↦ absurd (ground arith)
        | inr (inr (t, s1, read)) ↦ elim (Bool-cases (is_before t min_end || ltb slot slots)) [
          | inl stop ↦
              let same : boundary (suc epoch) slot t ∷ [] ≡ bs = ground arith in
              rw (← same) (
                Walked-alone slots min_end (suc epoch) slot t
                  (stopped min_end t slot slots (suc epoch) stop))
          | inr go ↦ elim (call_cases (walk net codec fuel slots min_end epoch (slot - slots) s1)) [
            | inl stuck ↦ absurd (ground arith)
            | inr (inl (e, s2, failed)) ↦ absurd (ground arith)
            | inr (inr (rest, s2, walked)) ↦
                let same : boundary (suc epoch) slot t ∷ rest ≡ bs = ground arith in
                rw (← same) (
                  Walked-more slots min_end epoch slot t rest (ground arith)
                    (walk-Walked slots min_end epoch (slot - slots) s1 s2 rest walked))
          ]
        ]
      ]
