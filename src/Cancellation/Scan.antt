-- ===== src/Cancellation/Scan.antt =====
-- Which entries of an event stream end the search for a terminal event.
use tributo_broker_redis.Base.{
  String, ◌↔◌, ◌≡◌, refl, Bool, true, false, some, List, [], ◌∷◌, ◌++◌, eq_refl,
}
use tributo_broker_redis.Json.{Text, Fields, obj, json_str, fields_get}
use tributo_broker_redis.Exec.{Result, ok, raised}
use tributo_broker_redis.Services.{ActiveSubmission, Services, Entry, decoded}
use tributo_broker_redis.Cancellation.{scan_entries, entry_verdict, event_verdict}
use tributo_broker_redis.Cancellation.Terminal.{payload_of, is_terminal, or_later}

module _ (services : Services) (item : ActiveSubmission) where
  -- Entries that the search goes past.
  pub data Passed : List Entry → Type 0 where
    none_left : Passed []
    passes :
        {entry : Entry} {entries : List Entry}
        → entry_verdict services item entry ≡ ok false
        → Passed entries
        → Passed (entry ∷ entries)

  scan-append :
      (newer : List Entry) (entry : Entry) (older : List Entry)
      → Passed newer
      → entry_verdict services item entry ≡ ok true
      → scan_entries services item (newer ++ entry ∷ older) ≡ ok true
  unfolding scan_entries
  scan-append [] entry older p h = rw h
  scan-append (e ∷ newer) entry older (passes v p) h = rw (v, scan-append newer entry older p h)

  own-entry_verdict :
      (entry : Entry) (payload : Text) (event : Fields) (event_type : String)
      → payload_of entry.fields ≡ some (decoded payload)
      → services.loads payload ≡ ok (obj event)
      → fields_get event "event_type" ≡ some (json_str event_type)
      → is_terminal (json_str event_type) ≡ true
      → fields_get event "submission_id" ≡ some (json_str item.submission.submission_id)
      → entry_verdict services item entry ≡ ok true
  unfolding entry_verdict event_verdict
  own-entry_verdict entry payload event event_type has_payload parsed typed terminal own =
      rw (has_payload, parsed, typed, terminal, own, eq_refl item.submission.submission_id)

  -- A terminal event of the submission is found whatever stands after it in the stream, if the search goes
  -- past that: an event of another type, an event of another submission, or what is no event at all.
  pub scan_entries-terminal :
      (newer : List Entry) (entry : Entry) (older : List Entry) (payload : Text) (event : Fields)
      (event_type : String)
      → Passed newer
      → payload_of entry.fields ≡ some (decoded payload)
      → services.loads payload ≡ ok (obj event)
      → fields_get event "event_type" ≡ some (json_str event_type)
      → is_terminal (json_str event_type) ≡ true
      → fields_get event "submission_id" ≡ some (json_str item.submission.submission_id)
      → scan_entries services item (newer ++ entry ∷ older) ≡ ok true
  scan_entries-terminal newer entry older payload event event_type p has_payload parsed typed
        terminal own =
      scan-append newer entry older p
        (own-entry_verdict entry payload event event_type has_payload parsed typed terminal own)

  Passed-first :
      (entry : Entry) (entries : List Entry) (verdict later : Result Bool)
      → entry_verdict services item entry ≡ verdict
      → (later ≡ ok false → Passed entries)
      → or_later services item verdict later ≡ ok false
      → Passed (entry ∷ entries)
  Passed-first entry entries (ok false) later v rest h = passes v (rest h)
  Passed-first entry entries (ok true) later v rest h = cc
  Passed-first entry entries (raised e) later v rest h = cc

  Passed-scan :
      (entries : List Entry) → scan_entries services item entries ≡ ok false → Passed entries
  unfolding scan_entries
  Passed-scan [] h = none_left
  Passed-scan (entry ∷ entries) h =
      Passed-first entry entries (entry_verdict services item entry)
        (scan_entries services item entries) refl (Passed-scan entries) h

  scan-Passed :
      (entries : List Entry) → Passed entries → scan_entries services item entries ≡ ok false
  unfolding scan_entries
  scan-Passed [] p = refl
  scan-Passed (entry ∷ entries) (passes v p) = rw v (scan-Passed entries p)

  -- The search answers that there is no terminal event exactly if it goes past every entry.
  pub scan_entries-none :
      (entries : List Entry) → (scan_entries services item entries ≡ ok false) ↔ Passed entries
  scan_entries-none entries = (Passed-scan entries, scan-Passed entries)
