-- ===== src/Protocol/Exposure.antt =====
-- What the search for plaintext credentials looks for, without the paths that it builds.
use Prim.Native.Char.{code}
use tributo_broker_redis.Base.{
  ℕ, suc, ◌+◌, ◌≤◌, String, ◌++ₛ◌, ◌≡◌, refl, ap, Bool, true, false, not, ◌&&◌, ◌||◌, Option, none,
  some, List, [], ◌∷◌, is_some, truthy, num_eq, ◌==◌, if◌then◌else◌, arith, eq_of_test, test_of_ne,
  Bool-cases, inl, inr, eq_iff,
}
use text.Mathlib.TextLemmas.{nil-append, cons-append, append_cancel_left}
use tributo_broker_redis.Json.{
  Text, Json, null, bool, num, str, arr, obj, Items, no_items, item, Fields, no_fields, field,
}
use tributo_broker_redis.Patterns.{decimal}
use tributo_broker_redis.Protocol.Credentials.{
  UrlParts, UrlTools, request_key_is_sensitive, is_given, looks_like_url, child_of, element_of,
  query_path, parts_path, url_path, is_secret, credential_path, items_path, fields_path, first_path,
}

abbrev query_exposes : List (String × String) → Bool
query_exposes [] = false
query_exposes ((key, value) ∷ items) =
    (request_key_is_sensitive key && truthy value) || query_exposes items

abbrev parts_expose : Option UrlParts → Bool
parts_expose none = false
parts_expose (some parts) =
    (is_some parts.username || is_some parts.password) || query_exposes parts.query_items

-- A value under a sensitive key, or a URL with user data or a sensitive query item, at any depth.
mutual
  pub exposes : UrlTools → Json → Bool
  exposes urls (obj fs) = fields_expose urls fs
  exposes urls (arr xs) = items_expose urls xs
  exposes urls (str t) = looks_like_url t && parts_expose (urls t)
  exposes urls null = false
  exposes urls (bool b) = false
  exposes urls (num n) = false

  pub items_expose : UrlTools → Items → Bool
  items_expose urls no_items = false
  items_expose urls (item v xs) = exposes urls v || items_expose urls xs

  pub fields_expose : UrlTools → Fields → Bool
  fields_expose urls no_fields = false
  fields_expose urls (field key v fs) =
      (request_key_is_sensitive key && is_given v) || (exposes urls v || fields_expose urls fs)

-- The same of a specification, whose own `credential_ref` may be given.
unfoldable pub spec_exposes : UrlTools → Fields → Bool
unfolding exposes
spec_exposes urls no_fields = false
spec_exposes urls (field key v fs) =
    (not (key == "credential_ref") && request_key_is_sensitive key && is_given v)
    || (exposes urls v || spec_exposes urls fs)

-- The dots of a path tell how deep it is.
dots : String → ℕ
dots String.[] = 0
dots (String.◌∷◌ c s) = if num_eq (code c) b'.' then suc (dots s) else dots s

dots-append : (s t : String) → dots (s ++ₛ t) ≡ dots s + dots t
unfolding dots
dots-append String.[] t = rw nil-append (omega arith)
dots-append (String.◌∷◌ c s) t = rw cons-append (ground (arith, dots-append s t))

dots-child_of : (path key : String) → suc (dots path) ≤ dots (child_of path key)
unfolding dots
dots-child_of path key = omega (arith, dots-append path ("." ++ₛ key), dots-append "." key, one_dot)
  where
    one_dot : dots "." ≡ 1
    one_dot = refl

dots-element_of : (path : String) (index : ℕ) → dots path ≤ dots (element_of path index)
dots-element_of path index = omega (arith, dots-append path ("[" ++ₛ (decimal index ++ₛ "]")))

-- Below the root no path is that of the specification's own `credential_ref`.
deep_child :
    (path key : String) → 1 ≤ dots path → (child_of path key == "spec.credential_ref") ≡ false
deep_child path key deep =
    test_of_ne (child_of path key) "spec.credential_ref"
      (λ e. omega (arith, dots-child_of path key, ap dots e, two_parts))
  where
    two_parts : dots "spec.credential_ref" ≡ 1
    two_parts = unfold dots in refl

found_first : (p q : Option String) → is_some (first_path p q) ≡ (is_some p || is_some q)
found_first none q = refl
found_first (some p) q = refl

found_if :
    (b : Bool) (p : String) (q : Option String)
    → is_some (if b then some p else q) ≡ (b || is_some q)
found_if true p q = refl
found_if false p q = refl

found_query :
    (path : String) (items : List (String × String))
    → is_some (query_path path items) ≡ query_exposes items
unfolding query_path
found_query path [] = refl
found_query path ((key, value) ∷ items) =
    rw (found_if (request_key_is_sensitive key && truthy value), found_query path items) refl

found_parts :
    (path : String) (parts : Option UrlParts) → is_some (parts_path path parts) ≡ parts_expose parts
found_parts path none = refl
found_parts path (some parts) =
    rw
      (
        found_if (is_some parts.username || is_some parts.password),
        found_query path parts.query_items,
      )
      refl

found_url :
    (urls : UrlTools) (path : String) (t : Text)
    → is_some (url_path urls path t) ≡ (looks_like_url t && parts_expose (urls t))
unfolding url_path
found_url urls path t = elim (Bool-cases (looks_like_url t)) [
  | inl url ↦ rw url (found_parts path (urls t))
  | inr other ↦ rw other refl
]

secret_below :
    (path key : String) (v : Json)
    → 1 ≤ dots path
    → is_secret (child_of path key) key v ≡ (request_key_is_sensitive key && is_given v)
unfolding is_secret
secret_below path key v deep = rw (deep_child path key deep) refl

module _ (urls : UrlTools) where
  mutual
    unfolding exposes credential_path

    found_below :
        (path : String) (v : Json)
        → 1 ≤ dots path
        → is_some (credential_path urls path v) ≡ exposes urls v
    found_below path (obj fs) deep = found_in_fields path fs deep
    found_below path (arr xs) deep = found_in_items path 0 xs deep
    found_below path (str t) deep = found_url urls path t
    found_below path null deep = refl
    found_below path (bool b) deep = refl
    found_below path (num n) deep = refl

    found_in_items :
        (path : String) (index : ℕ) (xs : Items)
        → 1 ≤ dots path
        → is_some (items_path urls path index xs) ≡ items_expose urls xs
    found_in_items path index no_items deep = refl
    found_in_items path index (item v xs) deep =
        rw
          (
            found_first,
            found_below (element_of path index) v (omega (arith, dots-element_of path index)),
            found_in_items path (suc index) xs deep,
          )
          refl

    found_in_fields :
        (path : String) (fs : Fields)
        → 1 ≤ dots path
        → is_some (fields_path urls path fs) ≡ fields_expose urls fs
    found_in_fields path no_fields deep = refl
    found_in_fields path (field key v fs) deep =
        rw
          (
            found_if,
            secret_below path key v deep,
            found_first,
            found_below (child_of path key) v (omega (arith, dots-child_of path key)),
            found_in_fields path fs deep,
          )
          refl

  root_key :
      (key : String) → (child_of "spec" key == "spec.credential_ref") ≡ (key == "credential_ref")
  root_key key = elim (Bool-cases (key == "credential_ref")) [
    | inl same ↦
        let named : key ≡ "credential_ref" = eq_of_test key "credential_ref" same in rw named refl
    | inr other ↦ rw other (
        test_of_ne (child_of "spec" key) "spec.credential_ref" (λ e.
          let named : key ≡ "credential_ref" =
            append_cancel_left "." key "credential_ref"
              (append_cancel_left "spec" ("." ++ₛ key) ".credential_ref" e) in
          let found : (key == "credential_ref") ≡ true = (eq_iff key "credential_ref").1 named in
          cc))
  ]

  found_in_spec : (fs : Fields) → is_some (fields_path urls "spec" fs) ≡ spec_exposes urls fs
  unfolding credential_path spec_exposes is_secret
  found_in_spec no_fields = refl
  found_in_spec (field key v fs) =
      rw
        (
          found_if,
          root_key key,
          found_first,
          found_below (child_of "spec" key) v (omega (arith, dots-child_of "spec" key)),
          found_in_spec fs,
        )
        refl

  -- The search finds something in a specification exactly if it exposes a secret: a given value under a
  -- sensitive key or a URL with user data or a sensitive query item, at any depth. The one value that is
  -- exempt is the specification's own `credential_ref`, although the exemption is a test of a path.
  pub credential_path-exposes :
      (fs : Fields) → is_some (credential_path urls "spec" (obj fs)) ≡ spec_exposes urls fs
  unfolding credential_path
  credential_path-exposes fs = found_in_spec fs
