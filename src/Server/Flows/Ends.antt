-- ===== src/Server/Flows/Ends.antt =====
-- server.go: the cash flows begin with the stake and end with its return.
use go_octopi.Base.{
  ℕ, ◌+◌, ◌*◌, ◌%◌, ◌⊎◌, ltb, ◌≤◌, ◌<◌, ◌≡◌, refl, ap, ◌∙◌, true, false, Option, none, some, List,
  [], ◌∷◌, ◌++◌, inl, inr, Bool, not, ◌&&◌, nat_eq, map, keep, arith, All, All-map, Bool-cases,
}
use go_octopi.Base.Fault.{ok}
use go_octopi.Base.Int.{pos}
use go_octopi.Base.Sort.{sort, insert_sorted, Sorted, sort-Sorted, sort-All}
use go_octopi.Base.Time.{Time, hour}
use go_octopi.Base.Word.{u64_mod, i64_limit, mul64}
use go_octopi.Rewards.{RewardRow}
use go_octopi.Server.Floats.{Floats}
use go_octopi.Server.Flows.{
  CashFlow, earlier, reward_flows, flow_end, flows_from, last_time, earliest_reward, flow_start,
  estimate_current_epoch_end, slots_remaining, at_least_an_hour, build_cash_flows,
}
use go_octopi.Solana.Epochs.{approx_slot_duration}
use go_octopi.Solana.Types.{EpochBoundary, EpochInfo}

-- A row that counts has a time and an amount, and its flow is its amount at its time.
abbrev pub counts : {F : Type 0} → Floats F → RewardRow F → Bool
counts floats r =
    not (floats.eq r.amount_sol_value (floats.of_int (pos 0))) && not (nat_eq r.timestamp 0)

abbrev pub flow_of : {F : Type 0} → RewardRow F → CashFlow F
flow_of r = record { when = r.timestamp; amount = r.amount_sol_value }

-- The flows of the rows that count, in the order of the rows.
abbrev pub counted : {F : Type 0} → Floats F → List (RewardRow F) → List (CashFlow F)
counted floats rewards = map flow_of (keep (counts floats) rewards)

reward_flows-counted :
    {F : Type 0} (floats : Floats F) (rewards : List (RewardRow F))
    → reward_flows floats rewards ≡ counted floats rewards
unfolding reward_flows keep
reward_flows-counted floats [] = refl
reward_flows-counted floats (r ∷ rewards) = ground (arith, reward_flows-counted floats rewards)

-- The slots that an epoch still has; a slot past its end counts as its first.
abbrev pub Remaining : EpochInfo → ℕ → Type 0
Remaining info n =
    ((info.slot_index < info.slots_in_epoch) × (n + info.slot_index ≡ info.slots_in_epoch))
    ⊎ ((info.slots_in_epoch ≤ info.slot_index) × (n ≡ info.slots_in_epoch))

-- The estimate of an epoch's end: 400 ms for each slot that remains, as an int64, and at least an hour;
-- a day where nothing is known of the epoch.
abbrev pub EndOf : Time → Option EpochInfo → Time → Type 0
EndOf now none t = t ≡ now + 24 * hour
EndOf now (some info) t =
    ((info.slots_in_epoch ≡ 0) × (t ≡ now + 24 * hour))
    ⊎ ((n : ℕ) × (d : ℕ) × Remaining info n
        × (d ≡ (n * 400000000) % u64_mod)
        × (((hour < d) × (d < i64_limit) × (t ≡ now + d))
            ⊎ (((d ≤ hour) ⊎ (i64_limit ≤ d)) × (t ≡ now + hour))))

hours_or :
    (now d : ℕ)
    → ((hour < d) × (d < i64_limit) × (now + at_least_an_hour d ≡ now + d))
      ⊎ (((d ≤ hour) ⊎ (i64_limit ≤ d)) × (now + at_least_an_hour d ≡ now + hour))
hours_or now d = elim (Bool-cases (ltb d i64_limit && ltb hour d)) [
  | inl long ↦ rw long (inl (ground arith, ground arith, refl))
  | inr short ↦ rw short (inr (ground arith, refl))
]

slots_remaining-Remaining : (info : EpochInfo) → Remaining info (slots_remaining info)
slots_remaining-Remaining info = elim (Bool-cases (ltb info.slot_index info.slots_in_epoch)) [
  | inl inside ↦ rw inside (inl (ground arith, ground arith))
  | inr past ↦ rw past (inr (ground arith, refl))
]

estimate-EndOf :
    (now : Time) (info : Option EpochInfo) → EndOf now info (estimate_current_epoch_end now info)
unfolding estimate_current_epoch_end
estimate-EndOf now none = refl
estimate-EndOf now (some info) = elim (Bool-cases (nat_eq info.slots_in_epoch 0)) [
  | inl empty ↦ rw empty (inl (ground arith, refl))
  | inr some_slots ↦
      let n = slots_remaining info in
      let d = mul64 n approx_slot_duration in
      rw some_slots (inr (n, d, slots_remaining-Remaining info, refl, hours_or now d))
]

estimate-later : (now : Time) (info : Option EpochInfo) → now < estimate_current_epoch_end now info
unfolding estimate_current_epoch_end
estimate-later now none = omega arith
estimate-later now (some info) = ground arith

module _ {F : Type 0} where
  insert_sorted-last :
      (x e : CashFlow F) (l : List (CashFlow F))
      → x.when ≤ e.when
      → insert_sorted earlier x (l ++ e ∷ []) ≡ insert_sorted earlier x l ++ e ∷ []
  unfolding insert_sorted
  insert_sorted-last x e [] h = ground arith
  insert_sorted-last x e (y ∷ l) h = elim (Bool-cases (earlier y x)) [
    | inl below ↦ rw (below, insert_sorted-last x e l h) refl
    | inr above ↦ rw above refl
  ]

  -- What is not earlier than anything stays at the end.
  sort-last :
      (l : List (CashFlow F)) (e : CashFlow F)
      → All (λ f. f.when ≤ e.when) l
      → sort earlier (l ++ e ∷ []) ≡ sort earlier l ++ e ∷ []
  unfolding sort insert_sorted
  sort-last [] e h = refl
  sort-last (x ∷ l) e h =
      ap (insert_sorted earlier x) (sort-last l e h.1) ∙ insert_sorted-last x e (sort earlier l) h.0

  insert_sorted-first :
      (x : CashFlow F) (l : List (CashFlow F))
      → All (λ f. x.when ≤ f.when) l
      → insert_sorted earlier x l ≡ x ∷ l
  unfolding insert_sorted
  insert_sorted-first x [] h = refl
  insert_sorted-first x (y ∷ l) h = ground arith

  -- What nothing is earlier than stays in front.
  sort-first :
      (x : CashFlow F) (l : List (CashFlow F))
      → All (λ f. x.when ≤ f.when) l
      → sort earlier (x ∷ l) ≡ x ∷ sort earlier l
  unfolding sort
  sort-first x l h = insert_sorted-first x (sort earlier l) (sort-All earlier _ l h)

  last_time-le : (t : Time) (l : List (CashFlow F)) → All (λ f. f.when ≤ t) l → last_time l ≤ t
  last_time-le t [] h = omega arith
  last_time-le t (x ∷ []) h = h.0
  last_time-le t (x ∷ y ∷ l) h = last_time-le t (y ∷ l) h.1

  flow_end-past :
      (now end : Time) (l : List (CashFlow F))
      → now < end
      → All (λ f. f.when ≤ now) l
      → flow_end end l ≡ end
  unfolding flow_end
  flow_end-past now end l later past = ground (arith, last_time-le now l past)

  earlier_asym : (x y : CashFlow F) → earlier x y ≡ true → earlier y x ≡ false
  earlier_asym x y h = ground arith

  earlier_trans :
      (x y z : CashFlow F) → earlier y x ≡ false → earlier z y ≡ false → earlier z x ≡ false
  earlier_trans x y z h k = ground arith

module _ {F : Type 0} (floats : Floats F) where
  -- Where the stake starts no later than any of the rows that have a time and an amount, and none of these is in
  -- the future, the cash flows are the stake, with its amount negated, the amounts of these rows at their
  -- times, sorted by time, and at the end the return of the stake, later than all of them:
  -- at the estimated end of the epoch, 400 ms for each slot that remains and at least an hour, or in a
  -- day where nothing is known of the epoch.
  pub build_cash_flows-ends :
      (now : Time) (delegated : F) (rewards : List (RewardRow F)) (bs : List EpochBoundary)
      (info : Option EpochInfo) (e : RewardRow F)
      → earliest_reward rewards ≡ some e
      → flow_start floats e bs ≤ now
      → All
          (λ (f : CashFlow F). (flow_start floats e bs ≤ f.when) × (f.when ≤ now))
          (counted floats rewards)
      → (build_cash_flows floats now delegated rewards bs info
          ≡ ok (
              record { when = flow_start floats e bs; amount = floats.neg delegated }
                ∷ sort earlier (counted floats rewards)
              ++ record { when = estimate_current_epoch_end now info; amount = delegated } ∷ []))
        × (now < estimate_current_epoch_end now info)
        × EndOf now info (estimate_current_epoch_end now info)
        × Sorted earlier (sort earlier (counted floats rewards))
  unfolding build_cash_flows flows_from
  build_cash_flows-ends now delegated rewards bs info e found started h =
      let start = flow_start floats e bs in
      let end = estimate_current_epoch_end now info in
      let middle = counted floats rewards in
      let stake : CashFlow F = record { when = start; amount = floats.neg delegated } in
      let later = estimate-later now info in
      let past : All (λ (f : CashFlow F). f.when ≤ now) (stake ∷ middle) =
        (started, All-map _ _ middle (λ f b. b.1) h) in
      let same : flow_end end (stake ∷ middle) ≡ end =
        flow_end-past now end (stake ∷ middle) later past in
      let fin : CashFlow F = record { when = end; amount = delegated } in
      let ordered : sort earlier ((stake ∷ middle) ++ fin ∷ [])
          ≡ (stake ∷ sort earlier middle) ++ fin ∷ [] =
        sort-last (stake ∷ middle) fin
          (All-map _ _ (stake ∷ middle) (λ f b. omega (arith, b, later)) past)
        ∙ ap (λ (l : List (CashFlow F)). l ++ fin ∷ [])
            (sort-first stake middle (All-map _ _ middle (λ f b. b.0) h)) in
      (
        rw (found, reward_flows-counted floats rewards, same, build_cash_flows) (ap ok ordered),
        later,
        estimate-EndOf now info,
        sort-Sorted earlier earlier_asym earlier_trans middle,
      )
