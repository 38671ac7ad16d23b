-- ===== src/Reporter/Clean.antt =====
-- What `redact` leaves of a payload.
use tributo_broker_redis.Base.{◌≡◌, refl, ap, Bool, true, false, ◌&&◌, ◌==◌, if◌then◌else◌}
use tributo_broker_redis.Json.{
  Text, Json, null, bool, num, str, arr, obj, Items, no_items, item, Fields, no_fields, field,
  json_is,
}
use tributo_broker_redis.Reporter.{
  redact, redact_items, redact_fields, sensitive_key, str_of, redacted,
}

abbrev is_text : Json → Bool
is_text (str t) = true
is_text _ = false

-- No secret at any depth: under a sensitive key stands the mark, and under `credential_ref`, the name of
-- a secret, a text.
mutual
  pub clean : Json → Bool
  clean (obj fs) = clean_fields fs
  clean (arr xs) = clean_items xs
  clean null = true
  clean (bool b) = true
  clean (num n) = true
  clean (str t) = true

  pub clean_items : Items → Bool
  clean_items no_items = true
  clean_items (item v xs) = clean v && clean_items xs

  pub clean_fields : Fields → Bool
  clean_fields no_fields = true
  clean_fields (field key v fs) =
      (if key == "credential_ref"
        then is_text v
        else if sensitive_key key
        then json_is v "[REDACTED]"
        else clean v)
      && clean_fields fs

module _ (repr : Json → Text) where
  -- What the two tests of a key leave under it is clean.
  value_clean :
      (credential sensitive : Bool) (t : Text) (v : Json)
      → clean v ≡ true
      → (if credential
          then is_text (if credential then str t else if sensitive then redacted else v)
          else if sensitive
          then json_is
              (if credential then str t else if sensitive then redacted else v)
              "[REDACTED]"
          else clean (if credential then str t else if sensitive then redacted else v))
        ≡ true
  value_clean true sensitive t v h = refl
  value_clean false true t v h = refl
  value_clean false false t v h = h

  mutual
    unfolding clean redact

    clean_json-redact : (v : Json) → clean (redact repr v) ≡ true
    clean_json-redact (obj fs) = clean_fields-redact fs
    clean_json-redact (arr xs) = clean_items-redact xs
    clean_json-redact null = refl
    clean_json-redact (bool b) = refl
    clean_json-redact (num n) = refl
    clean_json-redact (str t) = refl

    clean_items-redact : (xs : Items) → clean_items (redact_items repr xs) ≡ true
    clean_items-redact no_items = refl
    clean_items-redact (item v xs) = rw (clean_json-redact v, clean_items-redact xs)

    clean_fields-redact : (fs : Fields) → clean_fields (redact_fields repr fs) ≡ true
    clean_fields-redact no_fields = refl
    clean_fields-redact (field key v fs) = rw (
      value_clean (key == "credential_ref") (sensitive_key key) (str_of repr v) (redact repr v)
          (clean_json-redact v),
      clean_fields-redact fs,
    )

  value_again :
      (credential sensitive : Bool) (t : Text) (v : Json)
      → redact repr v ≡ v
      → (if credential
          then str (str_of repr (if credential then str t else if sensitive then redacted else v))
          else if sensitive
          then redacted
          else redact repr (if credential then str t else if sensitive then redacted else v))
        ≡ (if credential then str t else if sensitive then redacted else v)
  unfolding str_of
  value_again true sensitive t v h = refl
  value_again false true t v h = refl
  value_again false false t v h = h

  mutual
    unfolding redact

    redact_json-redact : (v : Json) → redact repr (redact repr v) ≡ redact repr v
    redact_json-redact (obj fs) = ap obj (redact_fields-redact_fields fs)
    redact_json-redact (arr xs) = ap arr (redact_items-redact_items xs)
    redact_json-redact null = refl
    redact_json-redact (bool b) = refl
    redact_json-redact (num n) = refl
    redact_json-redact (str t) = refl

    redact_items-redact_items :
        (xs : Items) → redact_items repr (redact_items repr xs) ≡ redact_items repr xs
    redact_items-redact_items no_items = refl
    redact_items-redact_items (item v xs) =
        rw (redact_json-redact v, redact_items-redact_items xs) refl

    redact_fields-redact_fields :
        (fs : Fields) → redact_fields repr (redact_fields repr fs) ≡ redact_fields repr fs
    redact_fields-redact_fields no_fields = refl
    redact_fields-redact_fields (field key v fs) =
        rw
          (
            value_again (key == "credential_ref") (sensitive_key key) (str_of repr v)
                (redact repr v) (redact_json-redact v),
            redact_fields-redact_fields fs,
          )
          refl

  -- Whatever a payload holds, at whatever depth, what `redact` leaves of it has no value under a sensitive
  -- key, and a text under `credential_ref`.
  pub clean-redact : (v : Json) → clean (redact repr v) ≡ true
  clean-redact v = clean_json-redact v

  -- To redact what was redacted changes nothing.
  pub redact-redact : (v : Json) → redact repr (redact repr v) ≡ redact repr v
  redact-redact v = redact_json-redact v
