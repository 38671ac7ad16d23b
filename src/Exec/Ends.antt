-- ===== src/Exec/Ends.antt =====
-- How an action ends: what is true of a value that it returns and of the state then, and of the state in
-- which it raises.
use tributo_broker_redis.Base.{Bool, true, false, if◌then◌else◌}
use tributo_broker_redis.Exec.{
  Exception, Result, ok, raised, Exec, pure, throw, lift, gets, try_except, ◌>>=◌, recover,
}
use tributo_broker_redis.Exec.Rules.{Preserves}

abbrev pub After : {S A : Type 0} → (A → S → Type 0) → (S → Type 0) → Result A → S → Type 0
After Q E (ok a) s = Q a s
After Q E (raised e) s = E s

-- From `P`, the action returns a value with `Q`, or raises with `E`.
pub record Ends {S A : Type 0} (P : S → Type 0) (Q : A → S → Type 0) (E : S → Type 0) (m : Exec S A)
    : Type 0 where
  pub ends : (s : S) → P s → After Q E (m s).0 (m s).1

recovered :
    {S A : Type 0} {Q : A → S → Type 0} {E : S → Type 0} (R : S → Type 0) (r : Result A)
    (handler : Exception → Exec S A) (s : S)
    → After Q R r s
    → ((e : Exception) → Ends R Q E (handler e))
    → After Q E (recover r handler s).0 (recover r handler s).1
recovered R (ok a) handler s h hh = h
recovered R (raised e) handler s h hh = (hh e).ends s h

module _ {S A : Type 0} {P : S → Type 0} {Q : A → S → Type 0} {E : S → Type 0} where
  pub pure-Ends : (a : A) → ((s : S) → P s → Q a s) → Ends P Q E (pure a)
  pure-Ends a h = record { ends = h }

  pub gets-Ends : (g : S → A) → ((s : S) → P s → Q (g s) s) → Ends P Q E (gets g)
  gets-Ends g h = record { ends = h }

  pub throw-Ends : (e : Exception) → ((s : S) → P s → E s) → Ends P Q E (throw e)
  throw-Ends e h = record { ends = h }

  pub if-Ends :
      (b : Bool) (m n : Exec S A) → Ends P Q E m → Ends P Q E n → Ends P Q E (if b then m else n)
  if-Ends true m n hm hn = hm
  if-Ends false m n hm hn = hn

  -- The handler starts where the body raised.
  pub try-Ends :
      (R : S → Type 0) (body : Exec S A) (handler : Exception → Exec S A)
      → Ends P Q R body
      → ((e : Exception) → Ends R Q E (handler e))
      → Ends P Q E (try_except body handler)
  try-Ends R body handler hb hh = record {
    ends = λ s p. let (r, s') = body s in recovered R r handler s' (hb.ends s p) hh;
  }

module _ {S A B : Type 0} {P : S → Type 0} {Q : B → S → Type 0} where
  followed :
      (r : Result A) (f : A → Exec S B) (s : S)
      → P s
      → ((a : A) → Ends P Q P (f a))
      → After Q P (◌>>=◌ (lift r) f s).0 (◌>>=◌ (lift r) f s).1
  followed (ok a) f s p h = (h a).ends s p
  followed (raised e) f s p h = p

  -- What comes first keeps `P`, whether it returns or raises.
  pub bind-Ends :
      (m : Exec S A) (f : A → Exec S B)
      → Preserves P m
      → ((a : A) → Ends P Q P (f a))
      → Ends P Q P (m >>= f)
  bind-Ends m f hm hf = record {
    ends = λ s p. let (r, s') = m s in followed r f s' (hm.after s p) hf;
  }

  concluded :
      (R : A → S → Type 0) (r : Result A) (f : A → Exec S B) (s : S)
      → After R P r s
      → ((a : A) → Ends (R a) Q P (f a))
      → After Q P (◌>>=◌ (lift r) f s).0 (◌>>=◌ (lift r) f s).1
  concluded R (ok a) f s h hf = (hf a).ends s h
  concluded R (raised e) f s h hf = h

  -- What comes first makes a difference when it returns.
  pub then-Ends :
      (R : A → S → Type 0) (m : Exec S A) (f : A → Exec S B)
      → Ends P R P m
      → ((a : A) → Ends (R a) Q P (f a))
      → Ends P Q P (m >>= f)
  then-Ends R m f hm hf = record {
    ends = λ s p. let (r, s') = m s in concluded R r f s' (hm.ends s p) hf;
  }
