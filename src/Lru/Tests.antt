-- ===== src/Lru/Tests.antt =====
-- jito_tips.go: runs of `stringLRU`.
use go_octopi.Base.{ℕ, ◌≡◌, refl, [], ◌∷◌, lookup, insert, delete, take, String-Eq}
use go_octopi.Base.Int.{pos, negsuc}
use go_octopi.Lru.{StringLru, new, get, evict, push, add}
use go_octopi.Lru.Elements.{find_id, remove_id}
use go_octopi.Lru.Invariant.{IsValid, new-IsValid, add-IsValid}
use go_octopi.Lru.Refinement.{view, add-take}

abbrev empty : StringLru ℕ
empty = new (pos 2)

-- A cache for two, used by three keys.
abbrev full : StringLru ℕ
full = add (add empty "a" 1) "b" 2

abbrev full-IsValid : IsValid full
full-IsValid = add-IsValid (add empty "a" 1) "b" 2 (add-IsValid empty "a" 1 (new-IsValid (pos 2)))

third : view (add full "c" 3) ≡ ("c", 3) ∷ ("b", 2) ∷ []
unfolding add push evict new insert lookup delete
third = refl

after_use : view (add (get full "a").0 "c" 3) ≡ ("c", 3) ∷ ("a", 1) ∷ []
unfolding add push evict new insert lookup delete get find_id remove_id
after_use = refl

no_capacity : (new {V = ℕ} (negsuc 4)).capacity ≡ 1
unfolding new
no_capacity = refl

add-IsValid_example : IsValid (add full "c" 3)
add-IsValid_example = add-IsValid full "c" 3 full-IsValid

add-take_example : view (add full "c" 3) ≡ take full.capacity (("c", 3) ∷ delete "c" (view full))
add-take_example = add-take full "c" 3 full-IsValid
