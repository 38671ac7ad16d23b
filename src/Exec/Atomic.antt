-- ===== src/Exec/Atomic.antt =====
-- Actions that leave a part of the state as it was if they raise.
use tributo_broker_redis.Base.{◌≡◌, refl, ◌∙◌, Bool, true, false, if◌then◌else◌}
use tributo_broker_redis.Exec.{Exception, Result, ok, raised, Exec, pure, gets, modify, lift, ◌>>=◌}
use tributo_broker_redis.Exec.Rules.{Preserves}

-- `view` is the part of the state in question.
pub record IsAtomic {ℓ} {S A V : Type ℓ} (view : S → V) (m : Exec S A) : Type ℓ where
  pub undone : (s : S) (e : Exception) → (m s).0 ≡ raised e → view (m s).1 ≡ view s

module _ {ℓ} {S A V : Type ℓ} {view : S → V} where
  pub pure-IsAtomic : (a : A) → IsAtomic view (pure a)
  pure-IsAtomic a = record { undone = λ s e h. refl }

  pub gets-IsAtomic : (f : S → A) → IsAtomic view (gets f)
  gets-IsAtomic f = record { undone = λ s e h. refl }

  pub kept-IsAtomic : (m : Exec S A) → ((v : V) → Preserves (λ s. view s ≡ v) m) → IsAtomic view m
  kept-IsAtomic m h = record { undone = λ s e _. (h (view s)).after s refl }

  pub if-IsAtomic :
      (b : Bool) (m n : Exec S A)
      → IsAtomic view m
      → IsAtomic view n
      → IsAtomic view (if b then m else n)
  if-IsAtomic true m n hm hn = hm
  if-IsAtomic false m n hm hn = hn

-- An assignment does not raise.
pub modify-IsAtomic : {S V : Type 0} {view : S → V} (f : S → S) → IsAtomic view (modify f)
modify-IsAtomic f = record { undone = λ s e h. cc }

module _ {ℓ} {S A B V : Type ℓ} {view : S → V} where
  later :
      (r : Result A) (f : A → Exec S B) (s : S) (e : Exception)
      → ((a : A) → IsAtomic view (f a))
      → (◌>>=◌ (lift r) f s).0 ≡ raised e
      → view (◌>>=◌ (lift r) f s).1 ≡ view s
  later (ok a) f s e h raise = (h a).undone s e raise
  later (raised x) f s e h raise = refl

  -- The first action keeps the view, whether it raises or not.
  pub bind-IsAtomic :
      (m : Exec S A) (f : A → Exec S B)
      → ((v : V) → Preserves (λ s. view s ≡ v) m)
      → ((a : A) → IsAtomic view (f a))
      → IsAtomic view (m >>= f)
  bind-IsAtomic m f hm hf = record {
    undone = λ s e raise. let (r, s') = m s in later r f s' e hf raise ∙ (hm (view s)).after s refl;
  }

pub ruleset atomic_rules =
    (pure-IsAtomic, gets-IsAtomic, if-IsAtomic, modify-IsAtomic, bind-IsAtomic, kept-IsAtomic)
