-- ===== src/Cli/Ended.antt =====
-- How the `consume` command of src/tributo_broker_redis/cli.py ends.
use tributo_broker_redis.Base.{
  ℕ, suc, String, ◌≡◌, refl, Bool, true, false, Option, none, some, List, if◌then◌else◌,
}
use tributo_broker_redis.Json.{Fields}
use tributo_broker_redis.Exec.{Result, ok, raised, lift, pure, modify}
use tributo_broker_redis.Exec.Rules.{Preserves, bind-Preserves, if-Preserves, pure-Preserves}
use tributo_broker_redis.Exec.Ends.{
  After, Ends, bind-Ends, throw-Ends, if-Ends, then-Ends, pure-Ends,
}
use tributo_broker_redis.Exec.Returns.{anything-Preserves}
use tributo_broker_redis.Client.{Environment}
use tributo_broker_redis.Config.Root.{ConfigTools, normalize_config}
use tributo_broker_redis.Services.{Services, Call}
use tributo_broker_redis.State.{State}
use tributo_broker_redis.Runtime.Types.{Setup}
use tributo_broker_redis.Runtime.Default.{Outside}
use tributo_broker_redis.Runtime.Startup.{Paths, construct, initial}
use tributo_broker_redis.Runtime.Create.{create_runtime, setup_of}
use tributo_broker_redis.Runtime.Loop.{close, close_now}
use tributo_broker_redis.Cancellation.Thread.{stop_watcher}
use tributo_broker_redis.Runtime.Loop.{close_client, start}
use tributo_broker_redis.State.{perform}
use tributo_broker_redis.Runtime.Process.{start-Preserves, run_once-Preserves, run_rounds-Preserves}
use tributo_broker_redis.Runtime.Closing.{closes, ClosedWith, ClosedWith-process, close-ClosedWith}
use tributo_broker_redis.Cli.{
  Command, consume, read_config, serve, serve_forever, consume_with, main,
}

-- The runtime is closed, and its client once more than in `s`.
abbrev pub ClosedOnce : State → State → Type 0
ClosedOnce s s' = (s'.closed ≡ true) × (closes s' ≡ suc (closes s))

module _ (services : Services) (setup : Setup) where
  client_kept :
      (has : Bool) (s : State)
      → s.closed ≡ true
      → ((if has then perform services.close_client Call.close_client else pure tt) s).1.closed
        ≡ true
  unfolding perform
  client_kept true s e = e
  client_kept false s e = e

  closed_unless :
      (was : Bool) (s : State)
      → s.closed ≡ was
      → ((if was then pure tt else close_now services setup) s).1.closed ≡ true
  unfolding stop_watcher close_client
  closed_unless true s e = e
  closed_unless false s e = client_kept services.has_close _ refl

  closed-close : (s : State) → (close services setup s).1.closed ≡ true
  unfolding close
  closed-close s = closed_unless s.closed s refl

  module _ (n : ℕ) where
    started-ClosedWith : Preserves (ClosedWith services n) (start services setup)
    started-ClosedWith = start-Preserves (ClosedWith-process services n) services setup

    forever-ClosedWith :
        (rounds : ℕ) → Preserves (ClosedWith services n) (serve_forever services setup rounds)
    forever-ClosedWith rounds =
        unfold serve_forever in
        bind-Preserves _ _ started-ClosedWith (λ _.
          bind-Preserves _ _
            (run_rounds-Preserves (ClosedWith-process services n) services setup rounds)
            (λ _. close-ClosedWith services n setup))

    serve-ClosedWith :
        (once : Bool) (rounds : ℕ)
        → Preserves (ClosedWith services n) (serve services setup once rounds)
    serve-ClosedWith once rounds = bind-Preserves _ _ started-ClosedWith (λ _.
        if-Preserves once _ _
          (bind-Preserves _ _
            (run_once-Preserves (ClosedWith-process services n) services setup none)
            (λ _. pure-Preserves 0))
          (bind-Preserves _ _ (forever-ClosedWith rounds) (λ _. pure-Preserves 0)))

  once_closed :
      (n : ℕ) (s : State)
      → services.has_close ≡ true
      → s.closed ≡ true
      → ClosedWith services n s
      → closes s ≡ suc n
  once_closed n s has e h = simp (h, e, has)

  -- However the loop ends, the runtime is closed then, and its client has been closed once.
  pub consume_with-ClosedOnce :
      (once : Bool) (rounds : ℕ) (s : State)
      → services.has_close ≡ true
      → s.closed ≡ false
      → ClosedOnce s (consume_with services setup once rounds s).1
  unfolding consume_with
  consume_with-ClosedOnce once rounds s has fresh =
      let s' = (serve services setup once rounds s).1 in
      (
        closed-close s',
        once_closed (closes s) (close services setup s').1 has (closed-close s') (
            (close-ClosedWith services (closes s) setup).after s'
              ((serve-ClosedWith (closes s) once rounds).after s (simp fresh))),
      )

module _ (services : Services) (paths : Paths) (env : Environment) (tools : ConfigTools)
    (outside : Outside) where
  initial-Ends :
      (watched : Bool)
      → Ends {S = State}
          (λ _. Unit {0})
          (λ _ s. s.closed ≡ false)
          (λ _. Unit {0})
          (modify (λ s. initial watched s.trace))
  initial-Ends watched = record { ends = λ s u. refl }

  construct-Ends :
      (setup : Setup) (has_client watched : Bool)
      → Ends
          (λ _. Unit)
          (λ _ s. s.closed ≡ false)
          (λ _. Unit)
          (construct services paths env setup has_client watched)
  unfolding construct
  construct-Ends setup has_client watched =
      search (if-Ends, throw-Ends, bind-Ends, anything-Preserves, initial-Ends) depth 9

  create-Ends :
      (raw : Fields)
      → Ends
          (λ _. Unit)
          (λ _ s. s.closed ≡ false)
          (λ _. Unit)
          (create_runtime services paths env tools outside raw)
  unfolding create_runtime
  create-Ends raw =
      bind-Ends (lift (normalize_config tools raw)) _ (anything-Preserves _) (λ config.
        then-Ends (λ _ s. s.closed ≡ false) _ _
          (construct-Ends (setup_of tools outside config) false false)
          (λ _. pure-Ends (setup_of tools outside config) (λ s e. e)))

  created_open :
      (r : Result Setup) (setup : Setup) (s : State)
      → r ≡ ok setup
      → After (λ _ s. s.closed ≡ false) (λ _. Unit) r s
      → s.closed ≡ false
  created_open (ok _) setup s e h = h
  created_open (raised e) setup s h u = cc

  -- However `consume` ends once the runtime is there, by a return, an exception of Redis or Ray, or a signal
  -- between two rounds: the runtime is closed, and its client was closed exactly once, if it can be closed.
  pub main-ClosedOnce :
      (parse_args : List String → Option Command) (argv : List String) (rounds : ℕ)
      (config : String) (once : Bool) (raw : Fields) (setup : Setup) (s : State)
      → services.has_close ≡ true
      → parse_args argv ≡ some (consume config once)
      → read_config outside.loads (env.read_text config) ≡ ok raw
      → (create_runtime services paths env tools outside raw s).0 ≡ ok setup
      → ClosedOnce
          (create_runtime services paths env tools outside raw s).1
          (main services paths env tools outside parse_args argv rounds s).1
  unfolding main
  main-ClosedOnce parse_args argv rounds config once raw setup s has parsed read created =
      rw (parsed, read, created)
        (consume_with-ClosedOnce services setup once rounds _ has
          (created_open _ setup _ created ((create-Ends raw).ends s tt)))
