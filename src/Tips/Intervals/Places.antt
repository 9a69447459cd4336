-- ===== src/Tips/Intervals/Places.antt =====
-- jito_tips.go: the intervals of boundaries that stand one epoch below another.
use go_octopi.Base.{
  ℕ, zero, suc, ◌-◌, ◌+◌, ◌*◌, ◌<◌, ◌≤◌, ◌≡◌, refl, Bool, some, List, [], ◌∷◌, ◌++◌, keep, In, All,
  All-map, arith, inl, inr, Bool-cases,
}
use go_octopi.Base.Sort.{sort, insert_sorted, sort-All}
use go_octopi.Base.Word.{u64_mod, u64_max}
use go_octopi.Solana.Types.{EpochBoundary, EpochInfo}
use go_octopi.Tips.Intervals.{by_epoch}
use go_octopi.Tips.Intervals.Lookup.{owner, Behind, Increasing, Bounded}

-- A boundary that stands at its place below the current epoch.
pub record OnSchedule (info : EpochInfo) (b : EpochBoundary) : Type 0 where
  pub back : ℕ
  pub epoch_at : b.epoch + suc back ≡ info.epoch
  pub slot_at : b.end_slot + back * info.slots_in_epoch + suc info.slot_index ≡ info.absolute_slot

-- All epochs of the list are below one.
abbrev pub Below : ℕ → List EpochBoundary → Type 0
Below n = All (λ (b : EpochBoundary). b.epoch < n)

-- Each epoch is above the ones behind it.
abbrev pub Falling : List EpochBoundary → Type 0
Falling [] = Unit
Falling (b ∷ bs) = Below b.epoch bs × Falling bs

pub keep-All :
    (P : EpochBoundary → Type 0) (p : EpochBoundary → Bool) (bs : List EpochBoundary)
    → All P bs
    → All P (keep p bs)
unfolding keep
keep-All P p [] h = tt
keep-All P p (b ∷ bs) h = elim (Bool-cases (p b)) [
  | inl held ↦ rw held (h.0, keep-All P p bs h.1)
  | inr out ↦ rw out (keep-All P p bs h.1)
]

pub keep-Falling :
    (p : EpochBoundary → Bool) (bs : List EpochBoundary) → Falling bs → Falling (keep p bs)
unfolding keep
keep-Falling p [] h = tt
keep-Falling p (b ∷ bs) h = elim (Bool-cases (p b)) [
  | inl held ↦
      rw held (keep-All (λ (c : EpochBoundary). c.epoch < b.epoch) p bs h.0, keep-Falling p bs h.1)
  | inr out ↦ rw out (keep-Falling p bs h.1)
]

-- An epoch above all others goes to the end.
insert_sorted-end :
    (b : EpochBoundary) (l : List EpochBoundary)
    → Below b.epoch l
    → insert_sorted by_epoch b l ≡ l ++ b ∷ []
unfolding insert_sorted
insert_sorted-end b [] h = refl
insert_sorted-end b (c ∷ l) h = ground (arith, h.0, insert_sorted-end b l h.1)

-- One boundary is an epoch below another, and ends at least the slots of an epoch before it.
abbrev Before : ℕ → EpochBoundary → EpochBoundary → Type 0
Before slots b c = (c.epoch < b.epoch) × (c.end_slot + slots ≤ b.end_slot)

mul_gap-at : (m d n k : ℕ) → n ≡ m + suc d → m * k + k ≤ n * k
mul_gap-at zero d n k e = rw e (omega arith)
mul_gap-at (suc m) d zero k e = absurd (omega arith)
mul_gap-at (suc m) d (suc n) k e = let h = mul_gap-at m d n k (omega arith) in omega arith

mul_gap : (m n k : ℕ) → m < n → m * k + k ≤ n * k
mul_gap m n k h = mul_gap-at m (n - suc m) n k (omega arith)

OnSchedule-Before :
    (info : EpochInfo) (b c : EpochBoundary)
    → OnSchedule info b
    → OnSchedule info c
    → c.epoch < b.epoch
    → Before info.slots_in_epoch b c
OnSchedule-Before info b c p q below =
    let gap =
      mul_gap p.back q.back info.slots_in_epoch
        (let e = p.epoch_at in let f = q.epoch_at in omega arith) in
    let e = p.slot_at in let f = q.slot_at in (below, omega arith)

-- Each boundary is on schedule, and above the ones behind it.
abbrev pub Scheduled : EpochInfo → List EpochBoundary → Type 0
Scheduled info bs = All (OnSchedule info) bs × Falling bs

All-Before :
    (info : EpochInfo) (b : EpochBoundary) (bs : List EpochBoundary)
    → OnSchedule info b
    → All (OnSchedule info) bs
    → Below b.epoch bs
    → All (Before info.slots_in_epoch b) bs
All-Before info b [] p o l = tt
All-Before info b (c ∷ bs) p o l =
    (OnSchedule-Before info b c p o.0 l.0, All-Before info b bs p o.1 l.1)

Behind-append :
    (slots : ℕ) (a b : EpochBoundary) (l : List EpochBoundary)
    → 0 < slots
    → Before slots b a
    → All (Before slots b) l
    → Behind a l
    → Behind a (l ++ b ∷ [])
Behind-append slots a b [] s h k i = (h.0, omega arith, tt)
Behind-append slots a b (c ∷ l) s h k i = (i.0, i.1, Behind-append slots c b l s k.0 k.1 i.2)

Increasing-append :
    (slots : ℕ) (b : EpochBoundary) (l : List EpochBoundary)
    → 0 < slots
    → All (Before slots b) l
    → Increasing l
    → Increasing (l ++ b ∷ [])
Increasing-append slots b [] s k i = tt
Increasing-append slots b (c ∷ l) s k i = Behind-append slots c b l s k.0 k.1 i

owner-append :
    (slot e : ℕ) (l m : List EpochBoundary) → owner slot l ≡ some e → owner slot (l ++ m) ≡ some e
unfolding owner
owner-append slot e [] m h = absurd (ground arith)
owner-append slot e (b ∷ l) m h = ground (arith, owner-append slot e l m)

-- Of epochs that all end before the slot, none owns it.
owner-end :
    (slots slot : ℕ) (b : EpochBoundary) (l : List EpochBoundary)
    → All (Before slots b) l
    → slot ≤ b.end_slot
    → b.end_slot < slot + slots
    → owner slot (l ++ b ∷ []) ≡ some b.epoch
unfolding owner
owner-end slots slot b [] k h w = ground arith
owner-end slots slot b (c ∷ l) k h w = ground (arith, owner-end slots slot b l k.1 h w)

module _ (info : EpochInfo) (some_slots : 0 < info.slots_in_epoch) where
  sort-end :
      (b : EpochBoundary) (bs : List EpochBoundary)
      → Scheduled info (b ∷ bs)
      → (sort by_epoch (b ∷ bs) ≡ sort by_epoch bs ++ b ∷ [])
        × All (Before info.slots_in_epoch b) (sort by_epoch bs)
  unfolding sort
  sort-end b bs (o, f) = (
    insert_sorted-end b (sort by_epoch bs) (sort-All by_epoch (λ c. c.epoch < b.epoch) bs f.0),
    sort-All by_epoch (Before info.slots_in_epoch b) bs (All-Before info b bs o.0 o.1 f.0),
  )

  -- Later epochs come later, and end later.
  pub sort-Increasing :
      (bs : List EpochBoundary) → Scheduled info bs → Increasing (sort by_epoch bs)
  unfolding sort
  sort-Increasing [] h = tt
  sort-Increasing (b ∷ bs) (o, f) =
      let (e, k) = sort-end b bs (o, f) in
      rw e (
        Increasing-append info.slots_in_epoch b (sort by_epoch bs) some_slots k
          (sort-Increasing bs (o.1, f.1)))

  -- The owner of a slot is the epoch that reaches over it.
  pub owner-sort :
      (slot : ℕ) (b : EpochBoundary) (bs : List EpochBoundary)
      → Scheduled info bs
      → In b bs
      → slot ≤ b.end_slot
      → b.end_slot < slot + info.slots_in_epoch
      → owner slot (sort by_epoch bs) ≡ some b.epoch
  owner-sort slot b [] k i h w = absurd i
  owner-sort slot b (c ∷ bs) (o, f) (inl same) h w =
      let (e, k) = sort-end c bs (o, f) in
      rw (e, same)
        (owner-end info.slots_in_epoch slot c (sort by_epoch bs) k (rw (← same) h) (rw (← same) w))
  owner-sort slot b (c ∷ bs) (o, f) (inr there) h w =
      let (e, k) = sort-end c bs (o, f) in
      rw e (
        owner-append slot b.epoch (sort by_epoch bs) (c ∷ [])
          (owner-sort slot b bs (o.1, f.1) there h w))

  pub OnSchedule-Bounded :
      (bs : List EpochBoundary)
      → info.absolute_slot < u64_mod
      → All (OnSchedule info) bs
      → Bounded (sort by_epoch bs)
  OnSchedule-Bounded bs w o =
      sort-All by_epoch (λ b. b.end_slot < u64_max) bs
        (All-map (OnSchedule info) (λ b. b.end_slot < u64_max) bs
          (λ b q. let e = q.slot_at in omega arith) o)
