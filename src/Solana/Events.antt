-- ===== src/Solana/Events.antt =====
-- solana_client.go: `GetEvents`, its timestamps and its payloads of tips.
use go_octopi.Base.{
  ℕ, ◌%◌, ◌≡◌, refl, Bool, true, false, ◌&&◌, ◌||◌, Option, none, some, List, [], ◌∷◌, String,
  String-Eq, map, take, leb, nat_eq, if◌then◌else◌, ◌==◌,
}
use go_octopi.Base.Fault.{
  plain, events_unsupported, bad_status, rpc_error, Result, ok, err, wrapping, ◌>>=◌,
}
use go_octopi.Base.Int.{ℤ, pos, negsuc, is_pos, to_ℕ}
use go_octopi.Base.Text.{codes, contains, digits, is_space, lower, bytes_eq, trim_space}
use go_octopi.Base.Time.{Time, unix}
use go_octopi.Base.Word.{u64_mod}
use go_octopi.Solana.Number.{json_number_to_uint64}
use go_octopi.Solana.Number.Decimal.{json_number_to_uint64-digits}
use go_octopi.Solana.Rpc.{HttpResponse, Transport, Rpc, post, continue, lift}
use go_octopi.Solana.Types.{Event, EventsPage, TipDistributionEvent}
use go_octopi.Solana.Wire.{
  text, number, object, nil, cons, Fields, end, field, RpcError, RpcResponse, RpcEvent,
  RpcEventsResult, Codec,
}

-- GetEventsRequest; the query is an object of JSON.
pub record GetEventsRequest : Type 0 where
  pub query : Fields
  pub before : String
  pub limit : ℤ
  pub start_slot : Option ℕ
  pub end_slot : Option ℕ
  pub commitment : String

-- tipDistributionPayload; a json.Number is its text.
pub record TipDistributionPayload : Type 0 where
  pub validator : String
  pub epoch : List ℕ
  pub recipient : String
  pub amount : List ℕ

-- What encoding/json and time read from the raw parts of an event.
pub record RawParts : Type 0 where
  pub string_of : List ℕ → Option String
  -- time.Parse(time.RFC3339, s), in UTC
  pub rfc3339 : String → Option Time
  pub int64_of : List ℕ → Option ℤ
  -- int64(f) of a float64 above 0
  pub seconds_of : List ℕ → Option ℤ
  pub tip_payload : List ℕ → Option TipDistributionPayload

abbrev skip_spaces : List ℕ → List ℕ
skip_spaces [] = []
skip_spaces (c ∷ s) = let rest = skip_spaces s in if is_space c then rest else c ∷ s

abbrev only_spaces : List ℕ → Bool
only_spaces [] = true
only_spaces (c ∷ s) = is_space c && only_spaces s

abbrev drop_spaces : List ℕ → List ℕ
drop_spaces [] = []
drop_spaces (c ∷ s) =
    let rest = drop_spaces s in if is_space c && only_spaces s then [] else c ∷ rest

-- bytes.TrimSpace, on ASCII
unfoldable pub trim_bytes : List ℕ → List ℕ
unfolding is_space
trim_bytes s = drop_spaces (skip_spaces s)

-- containsMethodNotFound
unfoldable pub contains_method_not_found : List ℕ → Bool
contains_method_not_found body = contains (map lower (trim_bytes body)) (codes "method not found")

abbrev is_missing_method : ℤ → Bool
is_missing_method (pos n) = false
is_missing_method (negsuc n) = nat_eq n 32600

-- isMethodNotFoundError, of an error that is there
unfoldable pub is_method_not_found_error : RpcError → Bool
is_method_not_found_error e =
    is_missing_method e.code || contains (map lower (codes e.message)) (codes "method not found")

abbrev number_or_zero : Result ℕ → ℕ
number_or_zero (err e) = 0
number_or_zero (ok n) = n

-- `if payload.Epoch != ""`
unfoldable pub payload_number : List ℕ → ℕ
payload_number [] = 0
payload_number (c ∷ s) = number_or_zero (json_number_to_uint64 (c ∷ s))

module _ (raw : RawParts) where
  open raw use {string_of, rfc3339, int64_of, seconds_of, tip_payload}

  abbrev positive_unix : Option ℤ → Option Time
  positive_unix none = none
  positive_unix (some n) = if is_pos n then some (unix n) else none

  abbrev unix_or_zero : Option Time → Option ℤ → Time
  unix_or_zero (some t) seconds = t
  unix_or_zero none none = 0
  unix_or_zero none (some n) = unix n

  abbrev time_or : Time → Option Time → Time
  time_or other none = other
  time_or other (some t) = t

  -- The zero time for a blank text, and the numbers for a text that is no time.
  abbrev text_time : Time → Option String → Time
  text_time numeric none = numeric
  text_time numeric (some s) =
      let trimmed = trim_space s in if trimmed == "" then 0 else time_or numeric (rfc3339 trimmed)

  -- parseEventTimestamp
  unfoldable pub parse_event_timestamp : List ℕ → Time
  unfolding trim_space
  parse_event_timestamp [] = 0
  parse_event_timestamp (c ∷ s) =
      text_time (unix_or_zero (positive_unix (int64_of (c ∷ s))) (seconds_of (c ∷ s)))
        (string_of (c ∷ s))

  abbrev tip_of_payload : Option TipDistributionPayload → Option TipDistributionEvent
  tip_of_payload none = none
  tip_of_payload (some p) = some (record {
    validator = p.validator;
    epoch = payload_number p.epoch;
    recipient = p.recipient;
    amount = payload_number p.amount;
  })

  -- decodeTipDistribution
  unfoldable pub decode_tip_distribution : List ℕ → Option TipDistributionEvent
  decode_tip_distribution [] = none
  decode_tip_distribution (c ∷ s) =
      if bytes_eq (trim_bytes (c ∷ s)) (codes "null")
      then none
      else tip_of_payload (tip_payload (c ∷ s))

  abbrev parsed_tip : Option (List ℕ) → Option TipDistributionEvent
  parsed_tip none = none
  parsed_tip (some info) = decode_tip_distribution info

  abbrev tip_or :
      Option TipDistributionEvent → Option TipDistributionEvent → Option TipDistributionEvent
  tip_or none other = other
  tip_or (some tip) other = some tip

  -- convertRPCEvent
  unfoldable pub convert_rpc_event : RpcEvent → Event
  convert_rpc_event e = record {
    signature = e.signature;
    slot = e.slot;
    timestamp = parse_event_timestamp e.timestamp;
    event_type = e.event_type;
    program_id = e.program_id;
    accounts = e.accounts;
    tip_distribution = tip_or e.tip_distribution (parsed_tip e.parsed);
  }

  abbrev page_of : Option RpcEventsResult → Result EventsPage
  page_of none = err (plain "events response missing result")
  page_of (some r) =
      ok (record { events = map convert_rpc_event r.events; pagination_token = r.pagination_token })

  abbrev reply_of : RpcResponse (Option RpcEventsResult) → Result EventsPage
  reply_of r = elim r.failure [
    | some e ↦
        if is_method_not_found_error e
        then err events_unsupported
        else err (rpc_error e.code e.message)
    | none ↦ page_of r.result
  ]

  -- GetEvents behind the reply
  unfoldable pub read_events : Codec → HttpResponse → Result EventsPage
  read_events codec resp =
      if leb 300 resp.status
      then (let body = take 2048 resp.body in
          if nat_eq resp.status 404 && contains_method_not_found body
          then err events_unsupported
          else err (bad_status "rpc status" resp.status body))
      else (wrapping "decode events response" (codec.events resp.body) >>= reply_of)

  abbrev slot_field : String → Option ℕ → Fields → Fields
  slot_field name none rest = rest
  slot_field name (some slot) rest = field name (number slot) rest

  abbrev text_field : String → String → Fields → Fields
  text_field name value rest = if value == "" then rest else field name (text value) rest

  -- The configuration of the request, by the order of its keys.
  unfoldable pub events_config : GetEventsRequest → Fields
  events_config req = text_field "before" req.before (
      field "commitment" (text (if req.commitment == "" then "confirmed" else req.commitment)) (
        slot_field "endSlot" req.end_slot (
          slot_field "limit" (if is_pos req.limit then some (to_ℕ req.limit) else none)
            (field "query" (object req.query) (slot_field "startSlot" req.start_slot end)))))

  module _ (net : Transport) (codec : Codec) (fuel : ℕ) where
    -- GetEvents
    unfoldable pub get_events : GetEventsRequest → Rpc net EventsPage
    get_events req s =
        elim (post net codec fuel "encode events request" "getEvents"
          (cons (object (events_config req)) nil) s) [
            | none ↦ none
            | some r ↦ continue net (λ resp s'. lift net (read_events codec resp) s') r
          ]

payload_number-ok : (s : List ℕ) (n : ℕ) → json_number_to_uint64 s ≡ ok n → payload_number s ≡ n
unfolding payload_number json_number_to_uint64
payload_number-ok [] n h = cc
payload_number-ok (c ∷ s) n h = rw (h, json_number_to_uint64) refl

-- A number of a payload is read modulo 2 ^ 64.
pub payload_number-digits : (n : ℕ) → payload_number (digits n) ≡ n % u64_mod
payload_number-digits n =
    payload_number-ok (digits n) (n % u64_mod) (json_number_to_uint64-digits n)
