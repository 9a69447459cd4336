-- ===== src/Server/Metrics.antt =====
-- metrics.go, http_metrics.go, server.go: the counters of responses. A counter stands under its status,
-- which strconv.Itoa prints one to one, and holds an int64 as its 64 bits.
pub mod Counts
pub mod Readings
use go_octopi.Base.{
  ℕ, Bool, true, false, Option, none, some, List, [], ◌∷◌, Dict, lookup, insert, ℕ-Eq,
}
use go_octopi.Base.Fault.{Error, Result, ok, err}
use go_octopi.Base.Word.{add64}

-- A `*expvar.Map`, which may be nil.
abbrev pub Counter : Type 0
Counter = Option (Dict ℕ ℕ)

abbrev count_or_zero : Option ℕ → ℕ
count_or_zero none = 0
count_or_zero (some n) = n

-- The count of a status.
unfoldable pub count_of : ℕ → Counter → ℕ
count_of code none = 0
count_of code (some m) = count_or_zero (lookup code m)

-- incrementResponseCount
unfoldable pub increment_response_count : Counter → ℕ → Counter
increment_response_count none code = none
increment_response_count (some m) code = some (insert code (add64 (count_of code (some m)) 1) m)

-- A `statusRecorder` and the statuses written to the response behind it.
pub record StatusRecorder : Type 0 where
  pub status : ℕ
  pub written : List ℕ

-- WriteHeader
unfoldable pub write_header : StatusRecorder → ℕ → StatusRecorder
write_header r status = record { status = status; written = status ∷ r.written }

unfoldable pub write_headers : StatusRecorder → List ℕ → StatusRecorder
write_headers r [] = r
write_headers r (status ∷ rest) = write_headers (write_header r status) rest

-- The recorder of a handler that writes these headers.
abbrev pub recorded : List ℕ → StatusRecorder
recorded statuses = write_headers (record { status = 200; written = [] }) statuses

module _ {Request S : Type 0} where
  -- withResponseMetrics, around a handler that gives the headers it writes.
  unfoldable pub with_response_metrics :
      (Request → S → List ℕ × S) → Request → S → Counter → StatusRecorder × S × Counter
  with_response_metrics next request s counter =
      let (statuses, s') = next request s in
      let rec = recorded statuses in (rec, s', increment_response_count counter rec.status)

abbrev count_reply : {Reply : Type 0} → (Reply → ℕ) → Option Reply → Counter → Counter
count_reply status_code none counter = counter
count_reply status_code (some reply) counter = increment_response_count counter (status_code reply)

-- A `metricsTransport`'s `RoundTrip`, around the transport's; a reply may be nil.
module _ {Request Reply S : Type 0} (status_code : Reply → ℕ) where
  unfoldable pub round_trip :
      (Request → S → Result (Option Reply) × S)
      → Request
      → S
      → Counter
      → Result (Option Reply) × S × Counter
  round_trip base request s counter =
      let (reply, s') = base request s in
      elim reply [
        | err e ↦ (err e, s', counter)
        | ok resp ↦ (ok resp, s', count_reply status_code resp counter)
      ]
