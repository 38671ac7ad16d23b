-- ===== src/Cancellation/Keyed.antt =====
-- The active submissions as a dictionary by operation.
use tributo_broker_redis.Base.{
  String, ◌≡◌, refl, Bool, true, not, ◌&&◌, some, [], ◌∷◌, Dict, dict_get, dict_put, dict_pop,
  dict_get-put, dict_get-pop, is_some, ◌==◌, eq_iff, arith,
}
use mathlib.Core.List.{Memᴰ}
use tributo_broker_redis.Services.{ActiveSubmission}
use tributo_broker_redis.Cancellation.{put_active, remove_active, get_active, snapshot}

-- Each submission stands under its own operation, and no operation has two.
unfoldable pub keyed : Dict ActiveSubmission → Bool
keyed [] = true
keyed ((k, item) ∷ d) = (item.operation_id == k && not (is_some (dict_get d k))) && keyed d

pub keyed-put_active :
    (d : Dict ActiveSubmission) (item : ActiveSubmission)
    → keyed d ≡ true
    → keyed (put_active d item) ≡ true
unfolding keyed put_active dict_get dict_put
keyed-put_active [] item h = ground (arith, eq_iff item.operation_id item.operation_id)
keyed-put_active ((k, i) ∷ d) item h = ground (
  arith,
  eq_iff k item.operation_id,
  eq_iff item.operation_id k,
  eq_iff i.operation_id k,
  dict_get-put d item.operation_id item k,
  keyed-put_active d item,
)

pub keyed-remove_active :
    (d : Dict ActiveSubmission) (operation_id : String)
    → keyed d ≡ true
    → keyed (remove_active d operation_id) ≡ true
unfolding keyed remove_active dict_pop
keyed-remove_active [] operation_id h = refl
keyed-remove_active ((k, i) ∷ d) operation_id h = ground (
  arith,
  eq_iff k operation_id,
  eq_iff operation_id k,
  dict_get-pop d operation_id k,
  keyed-remove_active d operation_id,
)

module _ (item : ActiveSubmission) where
  keyed_rest :
      (k : String) (i : ActiveSubmission) (d : Dict ActiveSubmission)
      → keyed ((k, i) ∷ d) ≡ true
      → keyed d ≡ true
  unfolding keyed
  keyed_rest k i d h = ground arith

  -- What stands further on in a dictionary is found, since no key stands twice.
  get_active_later :
      (k : String) (i : ActiveSubmission) (d : Dict ActiveSubmission)
      → keyed ((k, i) ∷ d) ≡ true
      → get_active d item.operation_id ≡ some item
      → get_active ((k, i) ∷ d) item.operation_id ≡ some item
  unfolding keyed get_active dict_get
  get_active_later k i d h found = ground (arith, eq_iff k item.operation_id)

  pub get_active-snapshot :
      (d : Dict ActiveSubmission)
      → keyed d ≡ true
      → Memᴰ item (snapshot d)
      → get_active d item.operation_id ≡ some item
  unfolding keyed get_active dict_get snapshot
  get_active-snapshot [] h m = elim m [ ]
  get_active-snapshot ((k, i) ∷ d) h (Memᴰ.head e) =
      rw e (ground (arith, eq_iff i.operation_id k, eq_iff k i.operation_id))
  get_active-snapshot ((k, i) ∷ d) h (Memᴰ.tail m) =
      get_active_later k i d h (get_active-snapshot d (keyed_rest k i d h) m)
