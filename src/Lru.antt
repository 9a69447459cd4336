-- ===== src/Lru.antt =====
-- jito_tips.go: `stringLRU`, an LRU cache of a map from keys to the elements of a doubly linked
-- list (container/list), most recently used first. An element is known by its identity `id`, as a
-- `*list.Element` is by its address; a `get` and an `add` reach it through the map.
pub mod Elements
pub mod Back
pub mod Invariant
pub mod Refinement
mod Tests
use go_octopi.Base.{
  ℕ, suc, ◌+◌, Bool, true, false, Option, none, some, List, [], ◌∷◌, String, Dict, lookup, insert,
  delete, length, front, last?, ltb, if◌then◌else◌, ◌==◌, String-Eq, ◌≡◌, arith,
}
use go_octopi.Base.Int.{ℤ, pos, negsuc, is_pos, to_ℕ}
use Elements.{Element, find_id, remove_id}

-- `items` maps a key to its element, `order` is the list, `next` the next fresh identity.
pub record StringLru {ℓ} (V : Type ℓ) : Type ℓ where
  pub capacity : ℕ
  pub items : Dict String ℕ
  pub order : List (Element V)
  pub next : ℕ

module _ {ℓ} {V : Type ℓ} where
  -- newStringLRU: a capacity that is not positive becomes 1.
  unfoldable pub new : ℤ → StringLru V
  new capacity = record {
    capacity = if is_pos capacity then to_ℕ capacity else 1;
    items = [];
    order = [];
    next = 0;
  }

  -- `Get`. (`MoveToFront` does nothing to an element that is not in the list.)
  unfoldable pub get : StringLru V → String → StringLru V × Option V
  get c key = elim (lookup key c.items) [
    | none ↦ (c, none)
    | some id ↦ elim (find_id id c.order) [
      | none ↦ (c, none)
      | some e ↦ (record c { order = e ∷ remove_id id c.order }, some e.value)
    ]
  ]

  -- The end of `Add`: drop the back of the list when it is longer than the capacity.
  unfoldable pub evict : StringLru V → StringLru V
  evict c = elim (last? c.order) [
    | none ↦ c
    | some e ↦
        if ltb c.capacity (length c.order)
        then record c { order = front c.order; items = delete e.key c.items }
        else c
  ]

  -- The `Add` of a key that the map lacks.
  unfoldable pub push : StringLru V → String → V → StringLru V
  push c key value = record c {
    order = record { id = c.next; key = key; value = value } ∷ c.order;
    items = insert key c.next c.items;
    next = suc c.next;
  }

  -- `Add`.
  unfoldable pub add : StringLru V → String → V → StringLru V
  add c key value = elim (lookup key c.items) [
    | some id ↦ elim (find_id id c.order) [
      | none ↦ c
      | some e ↦ record c { order = record e { value = value } ∷ remove_id id c.order }
    ]
    | none ↦ evict (push c key value)
  ]

  evict-capacity : (c : StringLru V) → (evict c).capacity ≡ c.capacity
  unfolding evict
  evict-capacity c = ground arith

  -- The capacity never changes.
  pub get-capacity : (c : StringLru V) (key : String) → (get c key).0.capacity ≡ c.capacity
  unfolding get
  get-capacity c key = ground arith

  pub add-capacity :
      (c : StringLru V) (key : String) (value : V) → (add c key value).capacity ≡ c.capacity
  unfolding add push
  add-capacity c key value = ground (arith, evict-capacity (push c key value))
