-- ===== src/Execution/Exit.antt =====
-- The exit code of the whole `main` of src/tributo_broker_redis/execution_driver.py.
use tributo_broker_redis.Base.{ℕ, ◌≡◌, refl, subst}
use tributo_broker_redis.Exec.{Result, ok, raised, lift, ◌>>=◌}
use tributo_broker_redis.Services.{Services}
use tributo_broker_redis.State.{State, Action}
use tributo_broker_redis.State.Delivered.{delivered, Has}
use tributo_broker_redis.Client.{create_client}
use tributo_broker_redis.Execution.{driver_reporter}
use tributo_broker_redis.Execution.Input.{load_driver_input, redis_connection}
use tributo_broker_redis.Execution.Settled.{IsSettled, execute-Ends}
use tributo_broker_redis.Exec.Ends.{After}
use tributo_broker_redis.Execution.Workload.{Work, Process, closed, execute, main}

-- Where the action returns, its value and the state have `Q`.
record Returned (Q : ℕ → State → Type 0) (m : Action ℕ) (s : State) : Type 0 where
  returned : (code : ℕ) → (m s).0 ≡ ok code → Q code (m s).1

module _ {Q : ℕ → State → Type 0} where
  after_lift :
      {A : Type 0} (r : Result A) (f : A → Action ℕ) (s : State)
      → ((a : A) → Returned Q (f a) s)
      → Returned Q (lift r >>= f) s
  after_lift (ok a) f s h = record { returned = (h a).returned }
  after_lift (raised e) f s h = record { returned = λ code e. cc }

module _ {Request Plan : Type 0} (services : Services) (work : Work Request Plan)
    (process : Process) where
  kept_result :
      (Q : ℕ → State → Type 0) (E : State → Type 0) (close : Result (Unit {0})) (r : Result ℕ)
      (s : State)
      → After Q E r s
      → (code : ℕ) → closed services work process close r ≡ ok code
      → Q code s
  kept_result Q E (ok _) (ok a) s h code e = let same : a ≡ code = cc in subst (λ n. Q n s) same h
  kept_result Q E (ok _) (raised x) s h code e = cc
  kept_result Q E (raised x) r s h code e = cc

  -- The process that returns an exit code has told Redis so: exit code 0 with exactly one COMPLETED event
  -- more and no FAILED, exit code 1 with exactly one FAILED more and no COMPLETED, and no other code, from
  -- any state and whatever the environment, Redis, Ray and the workload do.
  pub main-IsSettled :
      (s : State) (code : ℕ)
      → (main services work process s).0 ≡ ok code
      → IsSettled
          (delivered "COMPLETED" s)
          (delivered "FAILED" s)
          code
          (main services work process s).1
  unfolding main
  main-IsSettled s =
      let Settles = IsSettled (delivered "COMPLETED" s) (delivered "FAILED" s) in
      (after_lift {Q = Settles}
        (load_driver_input process.input process.tools process.package_file process.env.environ) _ s
        (λ loaded. after_lift {Q = Settles} (redis_connection loaded.0) _ s (λ connection.
          after_lift {Q = Settles} (create_client process.tools process.env connection) _ s
            (λ client. record {
              returned =
                  let reporter = driver_reporter process.env.environ loaded.0 loaded.1 in
                  let (r, s') = execute services work process loaded.0 loaded.1 reporter s in
                  kept_result Settles (Has (delivered "COMPLETED" s) (delivered "FAILED" s))
                    (process.close s'.trace) r s'
                    ((execute-Ends services work process reporter (delivered "COMPLETED" s)
                        (delivered "FAILED" s) loaded.0 loaded.1).ends
                      s (refl, refl));
            })))).returned
