-- ===== src/Exec/Returns.antt =====
-- Actions that do not raise.
use tributo_broker_redis.Base.{◌≡◌, refl, Bool, true, false, if◌then◌else◌}
use tributo_broker_redis.Exec.{
  Exception, Result, ok, raised, Exec, pure, lift, gets, try_except, ◌>>=◌, recover, is_ok,
}
use tributo_broker_redis.Exec.Rules.{Preserves}

-- From every state with `P` the action returns.
pub record Returns {S A : Type 0} (P : S → Type 0) (m : Exec S A) : Type 0 where
  pub returns : (s : S) → P s → is_ok (m s).0 ≡ true

recovered :
    {S A : Type 0} (r : Result A) (handler : Exception → Exec S A) (s : S)
    → ((e : Exception) (t : S) → is_ok (handler e t).0 ≡ true)
    → is_ok (recover r handler s).0 ≡ true
recovered (ok a) handler s h = refl
recovered (raised e) handler s h = h e s

module _ {S A : Type 0} {P : S → Type 0} where
  pub pure-Returns : (a : A) → Returns P (pure a)
  pure-Returns a = record { returns = λ s p. refl }

  pub gets-Returns : (f : S → A) → Returns P (gets f)
  gets-Returns f = record { returns = λ s p. refl }

  pub if-Returns :
      (b : Bool) (m n : Exec S A) → Returns P m → Returns P n → Returns P (if b then m else n)
  if-Returns true m n hm hn = hm
  if-Returns false m n hm hn = hn

  -- A handler that returns from everywhere catches all that the body raises.
  pub try-Returns :
      (body : Exec S A) (handler : Exception → Exec S A)
      → ((e : Exception) → Returns (λ _. Unit {0}) (handler e))
      → Returns P (try_except body handler)
  try-Returns body handler h = record {
    returns = λ s p. let (r, s') = body s in recovered r handler s' (λ e t. (h e).returns t tt);
  }

module _ {S A B : Type 0} {P : S → Type 0} where
  followed :
      (r : Result A) (f : A → Exec S B) (s : S)
      → is_ok r ≡ true
      → P s
      → ((a : A) → Returns P (f a))
      → is_ok (◌>>=◌ (lift r) f s).0 ≡ true
  followed (ok a) f s h p hf = (hf a).returns s p
  followed (raised e) f s h p hf = cc

  pub given-Returns :
      (a : A) (r : Result A) (f : A → Exec S B)
      → r ≡ ok a
      → Returns P (f a)
      → Returns P (lift r >>= f)
  given-Returns a r f e h = record { returns = λ s p. rw e (h.returns s p) }

  pub bind-Returns :
      (m : Exec S A) (f : A → Exec S B)
      → Returns P m
      → Preserves P m
      → ((a : A) → Returns P (f a))
      → Returns P (m >>= f)
  bind-Returns m f hm kept hf = record {
    returns = λ s p. let (r, s') = m s in followed r f s' (hm.returns s p) (kept.after s p) hf;
  }

pub anything-Preserves : {S A : Type 0} (m : Exec S A) → Preserves (λ _. Unit {0}) m
anything-Preserves m = record { after = λ s p. tt }

pub Returns-anywhere :
    {S A : Type 0} {P : S → Type 0} (m : Exec S A) → Returns (λ _. Unit {0}) m → Returns P m
Returns-anywhere m h = record { returns = λ s p. h.returns s tt }

pub ruleset returns_rules =
    (pure-Returns, gets-Returns, if-Returns, try-Returns, bind-Returns, anything-Preserves)

-- From every state the action returns `a`.
pub record Gives {S A : Type 0} (a : A) (m : Exec S A) : Type 0 where
  pub gives : (s : S) → (m s).0 ≡ ok a

module _ {S A : Type 0} where
  pub pure-Gives : (a : A) → Gives {S = S} a (pure a)
  pure-Gives a = record { gives = λ s. refl }

  pub lift-Gives : (a : A) (r : Result A) → r ≡ ok a → Gives {S = S} a (lift r)
  lift-Gives a r h = record { gives = λ s. h }

  untouched :
      (a : A) (r : Result A) (handler : Exception → Exec S A) (s : S)
      → r ≡ ok a
      → (recover r handler s).0 ≡ ok a
  untouched a r handler s h = rw h refl

  pub try-Gives :
      (a : A) (body : Exec S A) (handler : Exception → Exec S A)
      → Gives a body
      → Gives a (try_except body handler)
  try-Gives a body handler h = record {
    gives = λ s. let (r, s') = body s in untouched a r handler s' (h.gives s);
  }

module _ {S : Type 0} where
  -- A handler that always gives the value, whether the body may raise or not.
  pub try-Gives_only :
      (body : Exec S (Unit {0})) (handler : Exception → Exec S (Unit {0}))
      → ((e : Exception) → Gives tt (handler e))
      → Gives tt (try_except body handler)
  try-Gives_only body handler h = record { gives = λ s. let (r, s') = body s in go r s' }
    where
      go : (r : Result (Unit {0})) (s : S) → (recover r handler s).0 ≡ ok tt
      go (ok _) s = refl
      go (raised e) s = (h e).gives s

module _ {S A B : Type 0} where
  given_first :
      (a : A) (b : B) (r : Result A) (f : A → Exec S B) (s : S)
      → r ≡ ok a
      → Gives b (f a)
      → (◌>>=◌ (lift r) f s).0 ≡ ok b
  given_first a b r f s h hf = rw h (hf.gives s)

  pub bind-Gives :
      (a : A) (b : B) (m : Exec S A) (f : A → Exec S B)
      → Gives a m
      → Gives b (f a)
      → Gives b (m >>= f)
  bind-Gives a b m f hm hf = record {
    gives = λ s. let (r, s') = m s in given_first a b r f s' (hm.gives s) hf;
  }
