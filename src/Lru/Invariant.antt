-- ===== src/Lru/Invariant.antt =====
-- jito_tips.go: what keeps the map and the list of a `stringLRU` together, and that every operation
-- keeps it.
use go_octopi.Base.{
  ℕ, suc, ◌≤◌, ◌<◌, ◌≡◌, refl, inl, inr, none, some, ◌∷◌, String, arith, length, front, last?,
  if◌then◌else◌, eq_iff, lookup, delete, lookup-insert, lookup-delete, String-Eq, Option-cases,
}
use native.Mathlib.Decide.{dec_le}
use go_octopi.Base.Int.{ℤ, pos, negsuc, is_pos, to_ℕ}
use go_octopi.Lru.Elements.{
  Element, find_key, remove_key, handle, Unique, Older, find_id-find_key, find_key-remove_key,
  Unique-remove_key,
}
use go_octopi.Lru.Back.{
  Older-remove_key, Older-mono, Apart-fresh, Apart-removed, length-remove_key, Unique-front,
  Older-front, find_key-front, Older-of_find, last_of_pos, length-front,
}
use go_octopi.Lru.{StringLru, new, get, add, push, evict}

module _ {ℓ} {V : Type ℓ} where
  -- Distinct elements under distinct keys, each known to the map by its key, and nothing else known
  -- to the map.
  pub record IsCoherent (c : StringLru V) : Type 0 where
    pub unique : Unique c.order
    pub older : Older c.next c.order
    pub indexed : (k : String) → lookup k c.items ≡ handle (find_key k c.order)

  -- No more of them than the capacity.
  pub record IsValid (c : StringLru V) : Type 0 where
    pub positive : 0 < c.capacity
    pub bounded : length c.order ≤ c.capacity
    pub coherent : IsCoherent c
    pub open coherent use *

  -- A new cache is empty and valid, whatever capacity it is given.
  pub new-IsValid : (cap : ℤ) → IsValid (new {V = V} cap)
  unfolding new find_key lookup
  new-IsValid cap = record {
    positive = positive cap;
    bounded = omega arith;
    coherent = record { unique = tt; older = tt; indexed = λ k. refl };
  }
    where
      positive : (n : ℤ) → 0 < (if is_pos n then to_ℕ n else 1)
      positive (pos ℕ.zero) = omega arith
      positive (pos (suc n)) = omega arith
      positive (negsuc n) = omega arith

  -- A hit and a miss, with the map gone.
  pub get_hit :
      (c : StringLru V) (k : String) (e : Element V)
      → IsValid c
      → find_key k c.order ≡ some e
      → get c k ≡ (record c { order = e ∷ remove_key k c.order }, some e.value)
  unfolding get
  get_hit c k e v h = ground (arith, v.indexed k, find_id-find_key k c.order e v.unique h)

  pub get_miss :
      (c : StringLru V) (k : String) → IsValid c → find_key k c.order ≡ none → get c k ≡ (c, none)
  unfolding get
  get_miss c k v h = ground (arith, v.indexed k)

  pub add_hit :
      (c : StringLru V) (k : String) (x : V) (e : Element V)
      → IsValid c
      → find_key k c.order ≡ some e
      → add c k x ≡ record c { order = record e { value = x } ∷ remove_key k c.order }
  unfolding add
  add_hit c k x e v h = ground (arith, v.indexed k, find_id-find_key k c.order e v.unique h)

  pub add_miss :
      (c : StringLru V) (k : String) (x : V)
      → IsValid c
      → find_key k c.order ≡ none
      → add c k x ≡ evict (push c k x)
  unfolding add
  add_miss c k x v h = ground (arith, v.indexed k)

  -- The element of a key moves to the front, perhaps with a new value.
  refreshed-IsValid :
      (c : StringLru V) (k : String) (e : Element V)
      → IsValid c
      → find_key k c.order ≡ some e
      → (x : V) → IsValid (record c { order = record e { value = x } ∷ remove_key k c.order })
  unfolding find_key
  refreshed-IsValid c k e v h x = record {
    positive = v.positive;
    bounded = omega (arith, length-remove_key k c.order e v.unique h, v.bounded);
    coherent = record {
      unique = (Apart-removed e k c.order v.unique h, Unique-remove_key k c.order v.unique);
      older =
          (Older-of_find c.next k c.order e v.older h, Older-remove_key c.next k c.order v.older);
      indexed = λ j. ground (
        arith,
        v.indexed j,
        find_key-remove_key k j c.order,
        find_id-find_key k c.order e v.unique h,
        eq_iff k j,
        eq_iff e.key j,
        h,
      );
    };
  }

  push_size :
      (c : StringLru V) (k : String) (x : V)
      → IsValid c
      → (0 < (push c k x).capacity) × (length (push c k x).order ≤ suc (push c k x).capacity)
  unfolding push
  push_size c k x v = (v.positive, omega (arith, v.bounded))

  push-IsCoherent :
      (c : StringLru V) (k : String) (x : V)
      → IsValid c
      → find_key k c.order ≡ none
      → IsCoherent (push c k x)
  unfolding push find_key
  push-IsCoherent c k x v h = record {
    unique = (Apart-fresh c.next k c.order v.older h, v.unique);
    older = (omega arith, Older-mono c.next c.order v.older);
    indexed = λ j. ground (arith, v.indexed j, lookup-insert k j c.next c.items);
  }

  pub evict_over :
      (c : StringLru V) (t : Element V)
      → last? c.order ≡ some t
      → c.capacity < length c.order
      → evict c ≡ record c { order = front c.order; items = delete t.key c.items }
  unfolding evict
  evict_over c t e over = ground arith

  pub evict_fits : (c : StringLru V) → length c.order ≤ c.capacity → evict c ≡ c
  unfolding evict
  evict_fits c fits = ground arith

  dropped-IsValid :
      (c : StringLru V) (t : Element V)
      → IsCoherent c
      → last? c.order ≡ some t
      → 0 < c.capacity
      → length c.order ≤ suc c.capacity
      → IsValid (record c { order = front c.order; items = delete t.key c.items })
  dropped-IsValid c t v e p b = record {
    positive = p;
    bounded = omega (arith, length-front t c.order e);
    coherent = record {
      unique = Unique-front c.order v.unique;
      older = Older-front c.next c.order v.older;
      indexed = λ j. ground (
        arith,
        v.indexed j,
        lookup-delete t.key j c.items,
        find_key-front j t c.order v.unique e,
      );
    };
  }

  -- `evict` mends a list that is one too long.
  evict-IsValid :
      (c : StringLru V)
      → IsCoherent c
      → 0 < c.capacity
      → length c.order ≤ suc c.capacity
      → IsValid (evict c)
  evict-IsValid c v p b = elim (dec_le (length c.order) c.capacity) [
    | yes fits ↦ rw (evict_fits c fits) (record { positive = p; bounded = fits; coherent = v })
    | no over ↦
        let (t, e) = last_of_pos c.order (omega arith) in
        rw (evict_over c t e (omega arith)) (dropped-IsValid c t v e p b)
  ]

  pushed-IsValid :
      (c : StringLru V) (k : String) (x : V)
      → IsValid c
      → find_key k c.order ≡ none
      → IsValid (evict (push c k x))
  pushed-IsValid c k x v h =
      evict-IsValid (push c k x) (push-IsCoherent c k x v h) (push_size c k x v).0
        (push_size c k x v).1

  -- `get` keeps the invariant.
  pub get-IsValid : (c : StringLru V) (k : String) → IsValid c → IsValid (get c k).0
  get-IsValid c k v = elim (Option-cases (find_key k c.order)) [
    | inl miss ↦ rw (get_miss c k v miss) v
    | inr (e, hit) ↦ rw (get_hit c k e v hit) (refreshed-IsValid c k e v hit e.value)
  ]

  -- `add` keeps the invariant.
  pub add-IsValid : (c : StringLru V) (k : String) (x : V) → IsValid c → IsValid (add c k x)
  add-IsValid c k x v = elim (Option-cases (find_key k c.order)) [
    | inl miss ↦ rw (add_miss c k x v miss) (pushed-IsValid c k x v miss)
    | inr (e, hit) ↦ rw (add_hit c k x e v hit) (refreshed-IsValid c k e v hit x)
  ]
