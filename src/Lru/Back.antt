-- ===== src/Lru/Back.antt =====
-- jito_tips.go: the list of a `stringLRU` after an element has been taken out of it, from within or
-- from the back.
use go_octopi.Base.{
  ℕ, suc, ◌+◌, ◌<◌, ◌≡◌, refl, ◌≢◌, none, some, List, [], ◌∷◌, String, arith, length, front, last?,
  if◌then◌else◌, ◌==◌, eq_iff, String-Eq,
}
use go_octopi.Lru.Elements.{
  Element, find_key, remove_key, Apart, Unique, Older, Apart-find_key, Apart-id_of_find,
  find_id-find_key, remove_key_absent,
}

module _ {ℓ} {V : Type ℓ} where
  pub Older-remove_key :
      (n : ℕ) (k : String) (l : List (Element V)) → Older n l → Older n (remove_key k l)
  unfolding remove_key
  Older-remove_key n k [] o = tt
  Older-remove_key n k (e ∷ l) o = ground (arith, Older-remove_key n k l o.1)

  pub Older-of_find :
      (n : ℕ) (k : String) (l : List (Element V)) (e : Element V)
      → Older n l
      → find_key k l ≡ some e
      → e.id < n
  unfolding find_key
  Older-of_find n k [] e o h = cc
  Older-of_find n k (f ∷ l) e o h = ground (arith, Older-of_find n k l e o.1)

  pub Older-mono : (n : ℕ) (l : List (Element V)) → Older n l → Older (suc n) l
  Older-mono n [] o = tt
  Older-mono n (e ∷ l) o = (omega arith, Older-mono n l o.1)

  pub Apart-fresh :
      (i : ℕ) (k : String) (l : List (Element V)) → Older i l → find_key k l ≡ none → Apart i k l
  unfolding find_key
  Apart-fresh i k [] o h = tt
  Apart-fresh i k (f ∷ l) o h = ground (arith, eq_iff f.key k, Apart-fresh i k l o.1)

  pub Apart-removed :
      (e : Element V) (k : String) (l : List (Element V))
      → Unique l
      → find_key k l ≡ some e
      → Apart e.id e.key (remove_key k l)
  unfolding find_key remove_key
  Apart-removed e k [] u h = cc
  Apart-removed e k (f ∷ l) u h = ground (
    arith,
    eq_iff f.key k,
    Apart-removed e k l u.1,
    Apart-find_key f l u.0,
    remove_key_absent f.key l,
    Apart-id_of_find f k l e u.0,
    find_id-find_key k l e u.1,
  )

  pub length-remove_key :
      (k : String) (l : List (Element V)) (e : Element V)
      → Unique l
      → find_key k l ≡ some e
      → length (remove_key k l) + 1 ≡ length l
  unfolding find_key remove_key
  length-remove_key k [] e u h = cc
  length-remove_key k (f ∷ l) e u h = ground (
    arith,
    eq_iff f.key k,
    length-remove_key k l e u.1,
    Apart-find_key f l u.0,
    remove_key_absent f.key l,
  )

  Apart-front :
      (e : Element V) (l : List (Element V)) → Apart e.id e.key l → Apart e.id e.key (front l)
  Apart-front e [] a = tt
  Apart-front e (f ∷ []) a = tt
  Apart-front e (f ∷ g ∷ l) a = (a.0, a.1, Apart-front e (g ∷ l) a.2)

  pub Unique-front : (l : List (Element V)) → Unique l → Unique (front l)
  Unique-front [] u = tt
  Unique-front (e ∷ []) u = tt
  Unique-front (e ∷ f ∷ l) u = (Apart-front e (f ∷ l) u.0, Unique-front (f ∷ l) u.1)

  pub Older-front : (n : ℕ) (l : List (Element V)) → Older n l → Older n (front l)
  Older-front n [] o = tt
  Older-front n (e ∷ []) o = tt
  Older-front n (e ∷ f ∷ l) o = (o.0, Older-front n (f ∷ l) o.1)

  Apart-last :
      (e t : Element V) (l : List (Element V))
      → Apart e.id e.key l
      → last? l ≡ some t
      → e.key ≢ t.key
  Apart-last e t [] a h = cc
  Apart-last e t (f ∷ []) a h = ground arith
  Apart-last e t (f ∷ g ∷ l) a h = Apart-last e t (g ∷ l) a.2 h

  -- Dropping the back hides its key and no other.
  pub find_key-front :
      (j : String) (t : Element V) (l : List (Element V))
      → Unique l
      → last? l ≡ some t
      → find_key j (front l) ≡ (if t.key == j then none else find_key j l)
  unfolding find_key
  find_key-front j t [] u h = cc
  find_key-front j t (e ∷ []) u h = ground arith
  find_key-front j t (e ∷ f ∷ l) u h = ground (
    arith,
    find_key-front j t (f ∷ l) u.1 h,
    Apart-last e t (f ∷ l) u.0 h,
    eq_iff t.key j,
    eq_iff e.key j,
  )

  pub last_of_pos : (l : List (Element V)) → 0 < length l → (t : Element V) × (last? l ≡ some t)
  last_of_pos [] h = absurd (omega arith)
  last_of_pos (e ∷ []) h = (e, refl)
  last_of_pos (e ∷ f ∷ l) h = last_of_pos (f ∷ l) (omega arith)

  pub length-front :
      (t : Element V) (l : List (Element V)) → last? l ≡ some t → length (front l) + 1 ≡ length l
  length-front t [] h = cc
  length-front t (e ∷ []) h = omega arith
  length-front t (e ∷ f ∷ l) h = omega (arith, length-front t (f ∷ l) h)
