-- ===== src/Server/Address.antt =====
-- server.go: the address in the path of a wallet's page, and `solanaAddressPattern`.
use Prim.Native.Char.{code}
use go_octopi.Base.{
  ℕ, Bool, true, false, ◌&&◌, ◌||◌, Option, none, some, List, [], ◌∷◌, String, length, leb, nat_eq,
  if◌then◌else◌,
}
use go_octopi.Base.Text.{codes}

abbrev strip : String → String → Option String
strip String.[] s = some s
strip (String.◌∷◌ c p) String.[] = none
strip (String.◌∷◌ c p) (String.◌∷◌ d s) =
    let rest = strip p s in if nat_eq (code c) (code d) then rest else none

abbrev or_whole : String → Option String → String
or_whole s none = s
or_whole s (some rest) = rest

-- strings.TrimPrefix
unfoldable pub trim_prefix : String → String → String
trim_prefix s prefix = or_whole s (strip prefix s)

abbrev is_there : Option String → Bool
is_there none = false
is_there (some rest) = true

-- strings.HasPrefix
unfoldable pub has_prefix : String → String → Bool
has_prefix s prefix = is_there (strip prefix s)

-- [1-9A-HJ-NP-Za-km-z]
abbrev pub is_base58 : ℕ → Bool
is_base58 c =
    (leb b'1' c && leb c b'9')
    || (leb b'A' c && leb c b'H')
    || (leb b'J' c && leb c b'N')
    || (leb b'P' c && leb c b'Z')
    || (leb b'a' c && leb c b'k')
    || (leb b'm' c && leb c b'z')

unfoldable pub all_base58 : List ℕ → Bool
all_base58 [] = true
all_base58 (c ∷ cs) = is_base58 c && all_base58 cs

-- solanaAddressPattern.MatchString
unfoldable pub matches_address : String → Bool
unfolding all_base58
matches_address s = let n = length (codes s) in leb 32 n && leb n 44 && all_base58 (codes s)
