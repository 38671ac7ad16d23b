-- ===== src/Cancellation/ActiveMap.antt =====
-- `ActiveSubmissionMap` of src/tributo_broker_redis/cancellation.py. The lock makes each method one
-- step of the process.
use tributo_broker_redis.Base.{String, Option, List, [], ◌∷◌, Dict, dict_get, dict_put, dict_pop}
use tributo_broker_redis.Services.{ActiveSubmission}

unfoldable pub put_active : Dict ActiveSubmission → ActiveSubmission → Dict ActiveSubmission
put_active items value = dict_put items value.operation_id value

unfoldable pub remove_active : Dict ActiveSubmission → String → Dict ActiveSubmission
remove_active items operation_id = dict_pop items operation_id

unfoldable pub get_active : Dict ActiveSubmission → String → Option ActiveSubmission
get_active items operation_id = dict_get items operation_id

unfoldable pub snapshot : Dict ActiveSubmission → List ActiveSubmission
snapshot [] = []
snapshot ((k, item) ∷ items) = item ∷ snapshot items
