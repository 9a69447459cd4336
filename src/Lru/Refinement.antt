-- ===== src/Lru/Refinement.antt =====
-- jito_tips.go: `stringLRU` against its specification, a list of keys and values with the most
-- recently used in front, which is cut to the capacity.
use go_octopi.Base.{
  ℕ, zero, suc, ◌≤◌, ◌<◌, ◌≡◌, refl, ap, sym, ◌∙◌, inl, inr, Option, none, some, List, [], ◌∷◌,
  String, arith, length, take, Dict, lookup, delete, String-Eq, Option-cases, take_of_length-le,
  front-take,
}
use native.Mathlib.Decide.{dec_le}
use go_octopi.Lru.Elements.{
  Element, find_key, remove_key, pairs, remove_key_absent, find_id-find_key,
}
use go_octopi.Lru.Back.{length-remove_key, last_of_pos}
use go_octopi.Lru.Invariant.{IsValid, get_hit, get_miss, add_hit, add_miss, evict_over, evict_fits}
use go_octopi.Lru.{StringLru, get, add, push, evict}

module _ {ℓ} {V : Type ℓ} where
  -- The abstract cache of a `stringLRU`.
  abbrev pub view : StringLru V → Dict String V
  view c = pairs c.order

  abbrev pub value_of : Option (Element V) → Option V
  value_of none = none
  value_of (some e) = some e.value

  -- What a use of a key does: a hit comes to the front.
  abbrev pub used : String → Option V → Dict String V → Dict String V
  used k none l = l
  used k (some x) l = (k, x) ∷ delete k l

  pairs-remove_key :
      (k : String) (l : List (Element V)) → pairs (remove_key k l) ≡ delete k (pairs l)
  unfolding remove_key delete
  pairs-remove_key k [] = refl
  pairs-remove_key k (e ∷ l) = ground (arith, pairs-remove_key k l)

  lookup-pairs : (k : String) (l : List (Element V)) → lookup k (pairs l) ≡ value_of (find_key k l)
  unfolding find_key lookup
  lookup-pairs k [] = refl
  lookup-pairs k (e ∷ l) = ground (arith, lookup-pairs k l)

  length-pairs : (l : List (Element V)) → length (pairs l) ≡ length l
  length-pairs [] = refl
  length-pairs (e ∷ l) = ap suc (length-pairs l)

  pairs-take : (n : ℕ) (l : List (Element V)) → pairs (take n l) ≡ take n (pairs l)
  pairs-take zero l = refl
  pairs-take (suc n) [] = refl
  pairs-take (suc n) (e ∷ l) = ap (◌∷◌ (e.key, e.value)) (pairs-take n l)

  -- `Get` on a valid cache returns what the abstract cache holds under the key, and moves a hit to the
  -- front.
  pub get-used :
      (c : StringLru V) (k : String)
      → IsValid c
      → ((get c k).1 ≡ lookup k (view c)) × (view (get c k).0 ≡ used k (lookup k (view c)) (view c))
  get-used c k v = elim (Option-cases (find_key k c.order)) [
    | inl miss ↦ ground (arith, get_miss c k v miss, lookup-pairs k c.order)
    | inr (e, hit) ↦ ground (
      arith,
      get_hit c k e v hit,
      lookup-pairs k c.order,
      pairs-remove_key k c.order,
      find_id-find_key k c.order e v.unique hit,
    )
  ]

  view-evict :
      (c : StringLru V)
      → 0 < c.capacity
      → length c.order ≤ suc c.capacity
      → view (evict c) ≡ take c.capacity (view c)
  view-evict c p b = elim (dec_le (length c.order) c.capacity) [
    | yes fits ↦
        rw (evict_fits c fits)
          (sym (take_of_length-le c.capacity (view c) (omega (arith, length-pairs c.order))))
    | no over ↦
        let (t, e) = last_of_pos c.order (omega arith) in
        rw (evict_over c t e (omega arith))
          (ap pairs (front-take c.capacity c.order (omega arith)) ∙ pairs-take c.capacity c.order)
  ]

  view-push :
      (c : StringLru V) (k : String) (x : V)
      → IsValid c
      → view (evict (push c k x)) ≡ take c.capacity ((k, x) ∷ view c)
  unfolding push
  view-push c k x v = view-evict (push c k x) v.positive (omega (arith, v.bounded))

  -- `Add` on a valid cache puts the key in front with the new value, forgets its old place, and keeps
  -- as many entries as the capacity allows: what goes is the least recently used.
  pub add-take :
      (c : StringLru V) (k : String) (x : V)
      → IsValid c
      → view (add c k x) ≡ take c.capacity ((k, x) ∷ delete k (view c))
  add-take c k x v = elim (Option-cases (find_key k c.order)) [
    | inl miss ↦ rw (add_miss c k x v miss) (
        ground
          (arith, view-push c k x v, pairs-remove_key k c.order, remove_key_absent k c.order miss))
    | inr (e, hit) ↦ rw (add_hit c k x e v hit) (
        ground (
          arith,
          find_id-find_key k c.order e v.unique hit,
          pairs-remove_key k c.order,
          length-pairs (remove_key k c.order),
          length-remove_key k c.order e v.unique hit,
          take_of_length-le c.capacity ((k, x) ∷ pairs (remove_key k c.order)),
          v.bounded,
        ))
  ]
