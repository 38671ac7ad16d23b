-- ===== src/Exec/Rules.antt =====
-- What an action leaves true of the state, whether it returns or raises: one rule for each way to
-- build an action.
use tributo_broker_redis.Base.{Bool, true, false, if◌then◌else◌}
use tributo_broker_redis.Exec.{
  Exception, Result, ok, raised, Exec, pure, throw, lift, gets, modify, try_except, try_finally,
  ◌>>=◌, recover,
}

pub record Preserves {ℓ} {S A : Type ℓ} (P : S → Type ℓ) (m : Exec S A) : Type ℓ where
  pub after : (s : S) → P s → P (m s).1

module _ {ℓ} {S A : Type ℓ} {P : S → Type ℓ} where
  pub pure-Preserves : (a : A) → Preserves P (pure a)
  pure-Preserves a = record { after = λ s h. h }

  pub throw-Preserves : (e : Exception) → Preserves P (throw {A = A} e)
  throw-Preserves e = record { after = λ s h. h }

  pub lift-Preserves : (r : Result A) → Preserves P (lift r)
  lift-Preserves r = record { after = λ s h. h }

  pub gets-Preserves : (f : S → A) → Preserves P (gets f)
  gets-Preserves f = record { after = λ s h. h }

  pub if-Preserves :
      (b : Bool) (m n : Exec S A) → Preserves P m → Preserves P n → Preserves P (if b then m else n)
  if-Preserves true m n hm hn = hm
  if-Preserves false m n hm hn = hn

  recover-Preserves :
      (r : Result A) (handler : Exception → Exec S A)
      → ((e : Exception) → Preserves P (handler e))
      → Preserves P (recover r handler)
  recover-Preserves (ok a) handler h = record { after = λ s p. p }
  recover-Preserves (raised e) handler h = h e

  pub try-Preserves :
      (body : Exec S A) (handler : Exception → Exec S A)
      → Preserves P body
      → ((e : Exception) → Preserves P (handler e))
      → Preserves P (try_except body handler)
  try-Preserves body handler hb hh = record {
    after = λ s p. let (r, s') = body s in (recover-Preserves r handler hh).after s' (hb.after s p);
  }

pub finally-Preserves :
    {S A : Type 0} {P : S → Type 0} (body : Exec S A) (cleanup : Exec S (Unit {0}))
    → Preserves P body
    → Preserves P cleanup
    → Preserves P (try_finally body cleanup)
finally-Preserves body cleanup hb hc = record {
  after = λ s p. let (r, s') = body s in hc.after s' (hb.after s p);
}

pub modify-Preserves :
    {S : Type 0} {P : S → Type 0} (f : S → S) → ((s : S) → P s → P (f s)) → Preserves P (modify f)
modify-Preserves f h = record { after = h }

module _ {ℓ} {S A B : Type ℓ} {P : S → Type ℓ} where
  pub bind-Preserves :
      (m : Exec S A) (f : A → Exec S B)
      → Preserves P m
      → ((a : A) → Preserves P (f a))
      → Preserves P (m >>= f)
  bind-Preserves m f hm hf = record { after = λ s p. let (r, s') = m s in go r s' (hm.after s p) }
    where
      go : (r : Result A) (s' : S) → P s' → P (◌>>=◌ (lift r) f s').1
      go (ok a) s' p = (hf a).after s' p
      go (raised e) s' p = p

pub ruleset preserves_rules = (
  pure-Preserves, throw-Preserves, lift-Preserves, gets-Preserves, if-Preserves, try-Preserves,
  bind-Preserves, modify-Preserves, finally-Preserves,
)
