-- ===== src/Lru/Elements.antt =====
-- jito_tips.go: the elements of a `stringLRU`'s list, by identity and by key.
use go_octopi.Base.{
  ℕ, ◌<◌, ◌≡◌, refl, ◌≢◌, Option, none, some, List, [], ◌∷◌, String, arith, if◌then◌else◌, ◌==◌,
  eq_iff, Dict, ℕ-Eq, String-Eq,
}

-- A `*list.Element` that carries an `lruEntry`.
pub record Element {ℓ} (V : Type ℓ) : Type ℓ where
  pub id : ℕ
  pub key : String
  pub value : V

module _ {ℓ} {V : Type ℓ} where
  unfoldable pub find_id : ℕ → List (Element V) → Option (Element V)
  find_id i [] = none
  find_id i (e ∷ l) = if e.id == i then some e else find_id i l

  unfoldable pub remove_id : ℕ → List (Element V) → List (Element V)
  remove_id i [] = []
  remove_id i (e ∷ l) = let rest = remove_id i l in if e.id == i then rest else e ∷ rest

  -- The same by key.
  unfoldable pub find_key : String → List (Element V) → Option (Element V)
  find_key k [] = none
  find_key k (e ∷ l) = if e.key == k then some e else find_key k l

  unfoldable pub remove_key : String → List (Element V) → List (Element V)
  remove_key k [] = []
  remove_key k (e ∷ l) = let rest = remove_key k l in if e.key == k then rest else e ∷ rest

  -- The identity under which the map should know a key.
  abbrev pub handle : Option (Element V) → Option ℕ
  handle none = none
  handle (some e) = some e.id

  -- No element of the list has the identity or the key; every identity is below `n`.
  abbrev pub Apart : ℕ → String → List (Element V) → Type 0
  Apart i k [] = Unit
  Apart i k (f ∷ l) = (i ≢ f.id) × (k ≢ f.key) × Apart i k l

  abbrev pub Unique : List (Element V) → Type 0
  Unique [] = Unit
  Unique (e ∷ l) = Apart e.id e.key l × Unique l

  abbrev pub Older : ℕ → List (Element V) → Type 0
  Older n [] = Unit
  Older n (e ∷ l) = (e.id < n) × Older n l

  -- The abstract view: keys and values, most recent first.
  abbrev pub pairs : List (Element V) → Dict String V
  pairs [] = []
  pairs (e ∷ l) = (e.key, e.value) ∷ pairs l

  Apart-find_id :
      (e : Element V) (l : List (Element V)) → Apart e.id e.key l → find_id e.id l ≡ none
  unfolding find_id
  Apart-find_id e [] a = refl
  Apart-find_id e (f ∷ l) a = ground (arith, Apart-find_id e l a.2)

  pub Apart-find_key :
      (e : Element V) (l : List (Element V)) → Apart e.id e.key l → find_key e.key l ≡ none
  unfolding find_key
  Apart-find_key e [] a = refl
  Apart-find_key e (f ∷ l) a = ground (arith, Apart-find_key e l a.2, eq_iff f.key e.key)

  remove_id_absent : (i : ℕ) (l : List (Element V)) → find_id i l ≡ none → remove_id i l ≡ l
  unfolding find_id remove_id
  remove_id_absent i [] h = refl
  remove_id_absent i (e ∷ l) h = ground (arith, remove_id_absent i l)

  pub remove_key_absent :
      (k : String) (l : List (Element V)) → find_key k l ≡ none → remove_key k l ≡ l
  unfolding find_key remove_key
  remove_key_absent k [] h = refl
  remove_key_absent k (e ∷ l) h = ground (arith, remove_key_absent k l)

  pub Apart-id_of_find :
      (f : Element V) (k : String) (l : List (Element V)) (e : Element V)
      → Apart f.id f.key l
      → find_key k l ≡ some e
      → f.id ≢ e.id
  unfolding find_key
  Apart-id_of_find f k [] e a h = cc
  Apart-id_of_find f k (g ∷ l) e a h = ground (arith, Apart-id_of_find f k l e a.2)

  -- In a list of distinct elements the identity found for a key leads to the element of the key.
  pub find_id-find_key :
      (k : String) (l : List (Element V)) (e : Element V)
      → Unique l
      → find_key k l ≡ some e
      → (find_id e.id l ≡ some e) × (remove_id e.id l ≡ remove_key k l) × (e.key ≡ k)
  unfolding find_id find_key remove_id remove_key
  find_id-find_key k [] e u h = cc
  find_id-find_key k (f ∷ l) e u h = ground (
    arith,
    eq_iff f.key k,
    Apart-find_key f l u.0,
    Apart-find_id f l u.0,
    remove_id_absent f.id l,
    remove_key_absent f.key l,
    find_id-find_key k l e u.1,
    Apart-id_of_find f k l e u.0,
  )

  pub find_key-remove_key :
      (k j : String) (l : List (Element V))
      → find_key j (remove_key k l) ≡ (if k == j then none else find_key j l)
  unfolding find_key remove_key
  find_key-remove_key k j [] = ground arith
  find_key-remove_key k j (e ∷ l) =
      ground (arith, find_key-remove_key k j l, eq_iff e.key k, eq_iff e.key j, eq_iff k j)

  pub Apart-remove_key :
      (e : Element V) (k : String) (l : List (Element V))
      → Apart e.id e.key l
      → Apart e.id e.key (remove_key k l)
  unfolding remove_key
  Apart-remove_key e k [] a = tt
  Apart-remove_key e k (f ∷ l) a = ground (arith, Apart-remove_key e k l a.2)

  pub Unique-remove_key : (k : String) (l : List (Element V)) → Unique l → Unique (remove_key k l)
  unfolding remove_key
  Unique-remove_key k [] u = tt
  Unique-remove_key k (e ∷ l) u =
      ground (arith, Unique-remove_key k l u.1, Apart-remove_key e k l u.0)
