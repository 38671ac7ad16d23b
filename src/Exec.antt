-- ===== src/Exec.antt =====
-- Methods that change the state of their object, call external services and may raise. What was
-- done before a raise stays done, so the state comes back beside the exception too.
pub mod Rules
pub mod Leads
pub mod Atomic
pub mod Returns
pub mod Ends
use tributo_broker_redis.Base.{String, Bool, true, false}

-- The exceptions that the program tells apart; `other` is any other class, by its name.
pub data Exception : Type 0 where
  protocol_failure mapping_failure : (code sanitized_message : String) → Exception
  json_decode_error validation_error value_error type_error timeout_error : Exception
  response_error : (message : String) → Exception
  credential_unavailable terminal_event_publication_error : Exception
  other : (name : String) → Exception

pub data Result {ℓ} (A : Type ℓ) : Type ℓ where
  ok : A → Result A
  raised : Exception → Result A

abbrev pub Exec {ℓ} : Type ℓ → Type ℓ → Type ℓ
Exec S A = S → Result A × S

module _ {ℓ} {S A : Type ℓ} where
  abbrev pub pure : A → Exec S A
  pure a s = (ok a, s)

  abbrev pub throw : Exception → Exec S A
  throw e s = (raised e, s)

  abbrev pub lift : Result A → Exec S A
  lift r s = (r, s)

  abbrev pub gets : (S → A) → Exec S A
  gets f s = (ok (f s), s)

  -- `try: body except Exception: handler`
  abbrev pub recover : Result A → (Exception → Exec S A) → Exec S A
  recover (ok a) handler s = (ok a, s)
  recover (raised e) handler s = handler e s

  abbrev pub try_except : Exec S A → (Exception → Exec S A) → Exec S A
  try_except body handler s = let (r, s') = body s in recover r handler s'

-- `try: body finally: cleanup`: an exception of the cleanup replaces what the body ended with.
abbrev pub ended {ℓ} : {A : Type ℓ} → Result A → Result (Unit {0}) → Result A
ended r (ok _) = r
ended r (raised e) = raised e

abbrev pub try_finally : {S A : Type 0} → Exec S A → Exec S (Unit {0}) → Exec S A
try_finally body cleanup s = let (r, s') = body s in let (q, s'') = cleanup s' in (ended r q, s'')

abbrev pub modify : {S : Type 0} → (S → S) → Exec S (Unit {0})
modify f s = (ok tt, f s)

module _ {ℓ} {S A B : Type ℓ} where
  abbrev pub and_then : Result A → (A → Exec S B) → Exec S B
  and_then (ok a) f s = f a s
  and_then (raised e) f s = (raised e, s)

  infixl 10 ◌>>=◌ ◌>>◌
  abbrev pub ◌>>=◌ : Exec S A → (A → Exec S B) → Exec S B
  ◌>>=◌ m f s = let (r, s') = m s in and_then r f s'

  abbrev pub ◌>>◌ : Exec S A → Exec S B → Exec S B
  m >> n = m >>= λ _. n

abbrev pub is_ok {ℓ} : {A : Type ℓ} → Result A → Bool
is_ok (ok a) = true
is_ok (raised e) = false
