-- ===== src/Config/Normal.antt =====
-- What the validators of src/tributo_broker_redis/config.py leave of their values.
use tributo_broker_redis.Base.{
  String, ◌≡◌, refl, ◌∙◌, ap, subst, Bool, true, false, not, ◌&&◌, ◌||◌, Option, none, some, List,
  [], ◌∷◌, Dict, dict_get, ◌==◌, if◌then◌else◌, arith, eq_of_test, Bool-cases, inl, inr,
}
use tributo_broker_redis.Exec.{Exception, Result, ok, raised, value_error}
use tributo_broker_redis.Connection.{SplitResult}
use tributo_broker_redis.Config.Modules.{
  ModuleTools, remote_module_accepted, remote_module, extension_module, validate_extension_module,
  required, pip_package, validate_runtime_pip_package,
}
use tributo_broker_redis.Config.Execution.{
  joined, validate_all, is_reserved, is_sensitive_name, env_vars_accepted,
}

-- A validation that returns its text.
record Keeps (w : String) (r : Result String) : Type 0 where
  kept : (n : String) → r ≡ ok n → w ≡ n

Keeps-ok : (w : String) → Keeps w (ok w)
Keeps-ok w = record { kept = λ n e. cc }

Keeps-raised : (w : String) (e : Exception) → Keeps w (raised e)
Keeps-raised w e = record { kept = λ n h. cc }

Keeps-if :
    (w : String) (b : Bool) (r q : Result String)
    → Keeps w r
    → Keeps w q
    → Keeps w (if b then r else q)
Keeps-if w true r q hr hq = hr
Keeps-if w false r q hr hq = hq

module _ (tools : ModuleTools) where
  remote-Keeps : (w : String) (r : Result SplitResult) → Keeps w (remote_module tools w r)
  unfolding remote_module_accepted
  remote-Keeps w (raised e) = Keeps-raised w e
  remote-Keeps w (ok parsed) =
      Keeps-if w (remote_module_accepted tools parsed) _ _ (Keeps-ok w) (Keeps-raised w value_error)

  extension-Keeps : (w : String) → Keeps w (extension_module tools w)
  unfolding extension_module
  extension-Keeps w = search (Keeps-if, Keeps-raised, Keeps-ok, remote-Keeps) depth 8

  required-Keeps : (w : String) (r : Option (Option String)) → Keeps w (required w r)
  required-Keeps w none = Keeps-raised w value_error
  required-Keeps w (some none) = Keeps-ok w
  required-Keeps w (some (some url)) = Keeps-raised w value_error

  package-Keeps : (w : String) → Keeps w (pip_package tools w)
  unfolding pip_package
  package-Keeps w = search (Keeps-if, Keeps-raised, Keeps-ok, required-Keeps) depth 10

  -- A text that was validated is validated again to itself.
  abbrev Stable : (String → Result String) → Type 0
  Stable validate = (v n : String) → validate v ≡ ok n → validate n ≡ ok n

  settle_text :
      (check : String → Result String)
      → ((w : String) → Keeps w (check w))
      → ((v : String) → tools.text.strip (tools.text.strip v) ≡ tools.text.strip v)
      → Stable (λ v. check (tools.text.strip v))
  settle_text check keeps idempotent v n h =
      let same : tools.text.strip v ≡ n = (keeps (tools.text.strip v)).kept n h in
      subst (λ w. check (tools.text.strip w) ≡ ok n) same (rw (idempotent v) h)

  joined-ok :
      (r : Result String) (rest : Result (List String)) (ns : List String)
      → joined r rest ≡ ok ns
      → (first : String) × ((others : List String) × ((r ≡ ok first)
            × ((rest ≡ ok others) × (first ∷ others ≡ ns))))
  joined-ok (raised e) rest ns h = cc
  joined-ok (ok first) (raised e) ns h = cc
  joined-ok (ok first) (ok others) ns h = (first, (others, (refl, (refl, cc))))

  list-Stable :
      (validate : String → Result String) (vs ns : List String)
      → Stable validate
      → validate_all validate vs ≡ ok ns
      → validate_all validate ns ≡ ok ns
  unfolding validate_all
  list-Stable validate [] ns stable h =
      let same : [] ≡ ns = cc in subst (λ ms. validate_all validate ms ≡ ok ms) same refl
  list-Stable validate (v ∷ vs) ns stable h =
      let (first, (others, (head, (tail, same)))) =
        joined-ok (validate v) (validate_all validate vs) ns h in
      subst (λ ms. validate_all validate ms ≡ ok ms) same
        (rw (stable v first head, list-Stable validate vs others stable tail) refl)

  -- What the validator of `extra_py_modules` returns, it accepts again and leaves as it is, while `str.strip`
  -- of a stripped text is that text.
  pub extension_modules-stable :
      (vs ns : List String)
      → ((v : String) → tools.text.strip (tools.text.strip v) ≡ tools.text.strip v)
      → validate_all (validate_extension_module tools) vs ≡ ok ns
      → validate_all (validate_extension_module tools) ns ≡ ok ns
  unfolding validate_extension_module
  extension_modules-stable vs ns idempotent =
      list-Stable (validate_extension_module tools) vs ns
        (settle_text (extension_module tools) extension-Keeps idempotent)

  -- What the validator of `runtime_pip_packages` returns, it accepts again and leaves as it is, while
  -- `str.strip` of a stripped text is that text.
  pub pip_packages-stable :
      (vs ns : List String)
      → ((v : String) → tools.text.strip (tools.text.strip v) ≡ tools.text.strip v)
      → validate_all (validate_runtime_pip_package tools) vs ≡ ok ns
      → validate_all (validate_runtime_pip_package tools) ns ≡ ok ns
  unfolding validate_runtime_pip_package
  pip_packages-stable vs ns idempotent =
      list-Stable (validate_runtime_pip_package tools) vs ns
        (settle_text (pip_package tools) package-Keeps idempotent)

and_parts : (a b : Bool) → (a && b) ≡ true → (a ≡ true) × (b ≡ true)
and_parts a b h = ground arith

flagged : (b : Bool) → b ≡ true → not b ≡ true → ⊥
flagged true h n = cc
flagged false h n = cc

-- Accepted environment variables name none that is reserved for the identity and the input of the driver,
-- and none with a sensitive word.
pub env_vars_accepted-clear :
    (env : Dict String) (name : String)
    → env_vars_accepted env ≡ true
    → (is_reserved name || is_sensitive_name name) ≡ true
    → dict_get env name ≡ none
unfolding env_vars_accepted dict_get
env_vars_accepted-clear [] name h bad = refl
env_vars_accepted-clear ((key, value) ∷ env) name h bad =
    let (clear, rest) =
      and_parts (not (is_reserved key || is_sensitive_name key)) (env_vars_accepted env) h in
    elim (Bool-cases (key == name)) [
      | inl same ↦ absurd (
          flagged (is_reserved key || is_sensitive_name key)
            (ap (λ n. is_reserved n || is_sensitive_name n) (eq_of_test key name same) ∙ bad) clear)
      | inr other ↦ rw other (env_vars_accepted-clear env name rest bad)
    ]
