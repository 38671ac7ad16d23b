-- ===== src/Runtime/Fairness.antt =====
-- No channel starves: two rounds of `run_once` of src/tributo_broker_redis/runtime.py.
use tributo_broker_redis.Base.{
  ℕ, ◌+◌, ◌%◌, ◌≡◌, inl, inr, refl, ap, ◌∙◌, Bool, true, false, Option, String, List, if◌then◌else◌,
}
use tributo_broker_redis.Exec.{Result, ok, raised, and_then, pure, is_ok}
use tributo_broker_redis.Exec.Ends.{After}
use tributo_broker_redis.Config.{OperationType}
use tributo_broker_redis.Services.{Services}
use tributo_broker_redis.State.{State, Message}
use tributo_broker_redis.Runtime.Types.{Setup}
use tributo_broker_redis.Runtime.Loop.{recover_pending, serve_channel, channel_timeout, run_once}
use tributo_broker_redis.Runtime.Process.{serve_channel-Preserves}
use tributo_broker_redis.Runtime.Waiting.{
  other_of, Holds, Holds-stable, Holds-consume, on_channel-Holds, recover_pending-Waits, waiting,
}
use tributo_broker_redis.Runtime.Turns.{
  index_of, turns, turn_passes, turn_comes, consumer_of, d, serve_waiting, run_once-turns, Passes,
  serve_channel-Passes, HandsOn, handed_on, own_turn,
}

module _ (services : Services) (setup : Setup) (operation : OperationType) (message : Message)
    (rest : List Message) (cursor : String) where
  -- This round hands the delivery on, or it raises, or it serves the other channel and the next round hands
  -- the delivery on.
  pub data IsServed (first second : Option ℕ) (s : State) : Type 0 where
    at_once : HandsOn services setup operation message rest cursor first s → IsServed first second s
    ended : is_ok (run_once services setup first s).0 ≡ false → IsServed first second s
    next_round :
        (run_once services setup first s).0 ≡ ok true
        → HandsOn services setup operation message rest cursor second
            (run_once services setup first s).1
        → IsServed first second s

  module _ (first second : Option ℕ) (s : State) where
    abbrev other : ℕ
    other = index_of (other_of operation)

    abbrev timeout : ℕ
    timeout = channel_timeout services setup first

    -- What the other channel's turn came to.
    by_other :
        (r : Result Bool) (t : State)
        → run_once services setup first s
          ≡ and_then r
              (λ served.
                if served
                then pure true
                else serve_channel services setup timeout (index_of operation))
              t
        → Holds operation (d services setup operation message rest cursor) t
        → After (Passes services setup other) (λ _. Unit) r t
        → IsServed first second s
    by_other (raised e) t same h passes = ended (rw same refl)
    by_other (ok false) t same h passes = at_once (
        handed_on services setup operation message rest cursor first s t
          (same ∙ serve_waiting services setup operation message rest cursor timeout t h))
    by_other (ok true) t same h passes = next_round (rw same refl) (
        rw same (
          own_turn services setup operation message rest cursor second t h
            (ap (λ k. k % 2) (passes refl) ∙ turn_comes operation)))

    -- A delivery that was claimed and is the next of its consumer is handed to `handle` within two rounds,
    -- whatever Redis brings in for the other channel and whatever becomes of that: the first round hands it
    -- on, or serves the other channel and the second hands it on, unless the first raises.
    pub run_once-IsServed :
        Holds operation (waiting message rest cursor) s → IsServed first second s
    run_once-IsServed h = elim (turns operation s.next_channel) [
      | inl own ↦ at_once (own_turn services setup operation message rest cursor first s h own)
      | inr others ↦
          let s' = (recover_pending services setup s).1 in
          let w =
            (recover_pending-Waits services setup message rest cursor s.next_channel
                operation).after
              s (h, refl) in
          by_other (serve_channel services setup timeout other s').0
            (serve_channel services setup timeout other s').1
            (run_once-turns services setup other (index_of operation) first s
              (ap (λ k. k % 2) w.1 ∙ others)
              (ap (λ k. (k + 1) % 2) w.1 ∙ turn_passes operation s.next_channel others))
            ((serve_channel-Preserves (Holds-stable operation (waiting message rest cursor))
                (on_channel-Holds operation (waiting message rest cursor)) services setup other
                (consumer_of (other_of operation) _
                  (Holds-consume operation (waiting message rest cursor)))
                timeout).after
              s' w.0)
            ((serve_channel-Passes services setup timeout other).ends s' tt)
    ]
