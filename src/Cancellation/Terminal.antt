-- ===== src/Cancellation/Terminal.antt =====
-- `terminal_event_published` of src/tributo_broker_redis/cancellation.py.
use tributo_broker_redis.Base.{
  ℕ, Bool, true, false, ◌&&◌, ◌||◌, Option, none, some, List, [], ◌∷◌, num_eq, if◌then◌else◌,
  option_or,
}
use tributo_broker_redis.Json.{text, Json, null, arr, obj, fields_get, json_is, text_is}
use tributo_broker_redis.Exec.{Result, ok, raised, json_decode_error, type_error, ◌>>=◌, pure, lift}
use tributo_broker_redis.Config.{event_stream_key}
use tributo_broker_redis.Services.{ActiveSubmission, Raw, decoded, bytes, Entry, Services, Call}
use tributo_broker_redis.State.{Action, perform}

abbrev pub terminal_lookback : ℕ
terminal_lookback = 16

-- `event_type in _TERMINAL_EVENT_TYPES`, for an event type that can be hashed.
abbrev pub is_terminal : Json → Bool
is_terminal v = (json_is v "COMPLETED" || json_is v "FAILED") || json_is v "CANCELLED"

abbrev bytes_eq : List ℕ → List ℕ → Bool
bytes_eq [] [] = true
bytes_eq (a ∷ s) (b ∷ t) = num_eq a b && bytes_eq s t
bytes_eq _ _ = false

-- `b"payload"`
abbrev payload_bytes : List ℕ
payload_bytes = b'p' ∷ b'a' ∷ b'y' ∷ b'l' ∷ b'o' ∷ b'a' ∷ b'd' ∷ []

abbrev pub text_payload : List (Raw × Raw) → Option Raw
text_payload [] = none
text_payload ((decoded k, v) ∷ fs) = if text_is k "payload" then some v else text_payload fs
text_payload ((bytes k, v) ∷ fs) = text_payload fs

abbrev pub bytes_payload : List (Raw × Raw) → Option Raw
bytes_payload [] = none
bytes_payload ((bytes k, v) ∷ fs) = if bytes_eq k payload_bytes then some v else bytes_payload fs
bytes_payload ((decoded k, v) ∷ fs) = bytes_payload fs

abbrev first_some : Option Raw → Option Raw → Option Raw
first_some (some v) other = some v
first_some none other = other

-- `fields.get("payload", fields.get(b"payload"))`
abbrev pub payload_of : List (Raw × Raw) → Option Raw
payload_of fs = first_some (text_payload fs) (bytes_payload fs)

module _ (services : Services) (item : ActiveSubmission) where
  abbrev asks_matcher : Json → Result Bool
  asks_matcher event = elim services.terminal_event_matcher [
    | none ↦ ok false
    | some matcher ↦ matcher event item
  ]

  abbrev if_hashable : Json → Result Bool → Result Bool
  if_hashable (arr _) verdict = raised type_error
  if_hashable (obj _) verdict = raised type_error
  if_hashable _ verdict = verdict

  -- The loop body behind `json.loads`. `event.get` of what is no dict raises `AttributeError`, which is
  -- caught; the membership test of a list or a dict raises `TypeError`, which is not.
  unfoldable pub event_verdict : Json → Result Bool
  unfolding fields_get
  event_verdict (obj event) =
      let event_type = option_or (fields_get event "event_type") null in
      let submission_id = option_or (fields_get event "submission_id") null in
      let verdict : Result Bool =
        if is_terminal event_type
        then if json_is submission_id item.submission.submission_id
          then ok true
          else asks_matcher (obj event)
        else ok false in
      if_hashable event_type verdict
  event_verdict _ = ok false

  abbrev text_verdict : Result Json → Result Bool
  text_verdict (ok event) = event_verdict event
  text_verdict (raised json_decode_error) = ok false
  text_verdict (raised e) = raised e

  abbrev payload_verdict : Option Raw → Result Bool
  payload_verdict none = ok false
  payload_verdict (some (bytes b)) =
      text_verdict (services.loads (text (services.decode_replace b)))
  payload_verdict (some (decoded t)) = text_verdict (services.loads t)

  -- The loop body: `ok false` is `continue`, `ok true` is `return True`.
  unfoldable pub entry_verdict : Entry → Result Bool
  unfolding event_verdict
  entry_verdict entry = payload_verdict (payload_of entry.fields)

  abbrev pub or_later : Result Bool → Result Bool → Result Bool
  or_later (ok false) later = later
  or_later (ok true) later = ok true
  or_later (raised e) later = raised e

  unfoldable pub scan_entries : List Entry → Result Bool
  unfolding entry_verdict
  scan_entries [] = ok false
  scan_entries (entry ∷ entries) =
      let later = scan_entries entries in or_later (entry_verdict entry) later

  unfoldable pub terminal_event_published : Action Bool
  unfolding scan_entries perform event_stream_key
  terminal_event_published =
      if services.has_xrevrange
      then (do
        entries ←
            perform
              (λ t.
                services.xrevrange t (event_stream_key item.channel item.operation_id)
                  terminal_lookback)
              (Call.xrevrange (event_stream_key item.channel item.operation_id) terminal_lookback)
        lift (scan_entries entries))
      else pure false
