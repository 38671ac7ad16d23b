-- ===== src/Exec/Leads.antt =====
-- An action that takes every state with `P` to one with `Q`, whether it returns or raises.
use tributo_broker_redis.Base.{Bool, true, false, if◌then◌else◌}
use tributo_broker_redis.Exec.{
  Exception, Result, ok, raised, Exec, lift, try_except, ◌>>=◌, recover,
}
use tributo_broker_redis.Exec.Rules.{Preserves}

pub record Leads {ℓ} {S A : Type ℓ} (P Q : S → Type ℓ) (m : Exec S A) : Type ℓ where
  pub leads : (s : S) → P s → Q (m s).1

module _ {ℓ} {S A : Type ℓ} {Q : S → Type ℓ} where
  recovered_after :
      (r : Result A) (handler : Exception → Exec S A) (s : S)
      → ((e : Exception) → Preserves Q (handler e))
      → Q s
      → Q (recover r handler s).1
  recovered_after (ok a) handler s h q = q
  recovered_after (raised e) handler s h q = (h e).after s q

module _ {ℓ} {S A B : Type ℓ} {Q : S → Type ℓ} where
  after_last :
      (r : Result A) (f : A → Exec S B) (s : S)
      → ((a : A) → Preserves Q (f a))
      → Q s
      → Q (◌>>=◌ (lift r) f s).1
  after_last (ok a) f s h q = (h a).after s q
  after_last (raised e) f s h q = q

module _ {ℓ} {S A : Type ℓ} {P Q : S → Type ℓ} where
  pub Leads-of_Preserves : (m : Exec S A) → ((s : S) → P s → Q s) → Preserves P m → Leads P Q m
  Leads-of_Preserves m w h = record { leads = λ s p. w (m s).1 (h.after s p) }

  pub if-Leads :
      (b : Bool) (m n : Exec S A) → Leads P Q m → Leads P Q n → Leads P Q (if b then m else n)
  if-Leads true m n hm hn = hm
  if-Leads false m n hm hn = hn

  pub try-Leads :
      (body : Exec S A) (handler : Exception → Exec S A)
      → Leads P Q body
      → ((e : Exception) → Preserves Q (handler e))
      → Leads P Q (try_except body handler)
  try-Leads body handler hb hh = record {
    leads = λ s p. let (r, s') = body s in recovered_after r handler s' hh (hb.leads s p);
  }

module _ {ℓ} {S A B : Type ℓ} {P Q : S → Type ℓ} where
  after_first :
      (w : (s : S) → P s → Q s) (r : Result A) (f : A → Exec S B) (s : S)
      → ((a : A) → Leads P Q (f a))
      → P s
      → Q (◌>>=◌ (lift r) f s).1
  after_first w (ok a) f s h p = (h a).leads s p
  after_first w (raised e) f s h p = w s p

  -- The first action keeps `P`; the rest leads from there.
  pub bind-Leads :
      (m : Exec S A) (f : A → Exec S B)
      → ((s : S) → P s → Q s)
      → Preserves P m
      → ((a : A) → Leads P Q (f a))
      → Leads P Q (m >>= f)
  bind-Leads m f w hm hf = record {
    leads = λ s p. let (r, s') = m s in after_first w r f s' hf (hm.after s p);
  }

  -- The first action leads to `Q`; the rest keeps it.
  pub bind-Leads_last :
      (m : Exec S A) (f : A → Exec S B)
      → Leads P Q m
      → ((a : A) → Preserves Q (f a))
      → Leads P Q (m >>= f)
  bind-Leads_last m f hm hf = record {
    leads = λ s p. let (r, s') = m s in after_last r f s' hf (hm.leads s p);
  }
