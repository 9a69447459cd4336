-- ===== src/Server/Metrics/Counts.antt =====
-- metrics.go: what the counters have counted after some requests.
use go_octopi.Base.{
  ℕ, inl, inr, ◌∙◌, ◌+◌, ◌<◌, ◌≡◌, refl, true, false, Option, none, some, List, [], ◌∷◌, Dict,
  insert, lookup-insert, length, last?, nat_eq, if◌then◌else◌, ℕ-Eq, arith, Bool-cases,
}
use go_octopi.Base.Word.{add64, u64_mod}
use go_octopi.Server.Metrics.{
  Counter, count_of, increment_response_count, StatusRecorder, write_header, write_headers,
  recorded, with_response_metrics,
}

-- How many of the numbers are this one.
abbrev pub occurrences : ℕ → List ℕ → ℕ
occurrences code [] = 0
occurrences code (x ∷ xs) =
    let rest = occurrences code xs in if nat_eq x code then 1 + rest else rest

abbrev pub or_else : ℕ → Option ℕ → ℕ
or_else fallback none = fallback
or_else fallback (some s) = s

-- The last status that a handler writes, or 200.
abbrev pub told : List ℕ → ℕ
told statuses = or_else 200 (last? statuses)

last?-some : (a b x : ℕ) (xs : List ℕ) → or_else a (last? (x ∷ xs)) ≡ or_else b (last? (x ∷ xs))
last?-some a b x [] = refl
last?-some a b x (y ∷ xs) = last?-some a b y xs

write_headers-last :
    (r : StatusRecorder) (statuses : List ℕ)
    → (write_headers r statuses).status ≡ or_else r.status (last? statuses)
unfolding write_headers write_header
write_headers-last r [] = refl
write_headers-last r (x ∷ []) = refl
write_headers-last r (x ∷ y ∷ rest) =
    write_headers-last (write_header r x) (y ∷ rest) ∙ last?-some x r.status y rest

count_of-increment :
    (code status : ℕ) (m : Dict ℕ ℕ)
    → count_of code (increment_response_count (some m) status)
      ≡ (if nat_eq status code then add64 (count_of code (some m)) 1 else count_of code (some m))
unfolding count_of increment_response_count
count_of-increment code status m = elim (Bool-cases (nat_eq status code)) [
  | inl same ↦
      let here : status ≡ code = ground arith in
      rw (here, lookup-insert code code (add64 (count_of code (some m)) 1) m) (ground arith)
  | inr other ↦ rw (lookup-insert status code (add64 (count_of status (some m)) 1) m, other) refl
]

module _ {Request S : Type 0} (next : Request → S → List ℕ × S) where
  -- The statuses that the handler tells in a run of requests.
  abbrev pub statuses_of : List Request → S → List ℕ
  statuses_of [] s = []
  statuses_of (request ∷ requests) s =
      let (statuses, s') = next request s in told statuses ∷ statuses_of requests s'

  -- The counter behind the requests.
  unfoldable pub serve_requests : List Request → S → Counter → Counter
  serve_requests [] s counter = counter
  serve_requests (request ∷ requests) s counter =
      let (rec, s', counter') = with_response_metrics next request s counter in
      serve_requests requests s' counter'

  -- Over any requests that do not overflow its 64 bits, the counter of a status grows by the number of
  -- requests whose handler told that status last, where a handler that tells none has told 200.
  pub count_of-serve_requests :
      (requests : List Request) (s : S) (m : Dict ℕ ℕ) (code : ℕ)
      → count_of code (some m) + length requests < u64_mod
      → count_of code (serve_requests requests s (some m))
        ≡ count_of code (some m) + occurrences code (statuses_of requests s)
  unfolding serve_requests with_response_metrics increment_response_count
  count_of-serve_requests [] s m code l = omega arith
  count_of-serve_requests (request ∷ requests) s m code l =
      let status = (recorded (next request s).0).status in
      let told_last : status ≡ told (next request s).0 =
        write_headers-last (record { status = 200; written = [] }) (next request s).0 in
      let grown = count_of-increment code status m in
      let rest =
        count_of-serve_requests requests (next request s).1
          (insert status (add64 (count_of status (some m)) 1) m) code in
      elim (Bool-cases (nat_eq status code)) [
        | inl same ↦
            let now : nat_eq (told (next request s).0) code ≡ true = rw (← told_last) same in
            rw now (ground (arith, grown, rest))
        | inr other ↦
            let now : nat_eq (told (next request s).0) code ≡ false = rw (← told_last) other in
            rw now (ground (arith, grown, rest))
      ]
