-- ===== src/Spec/Examples.antt =====
-- Identifiers in small cases.
use windrpc.Base.{◌≡◌, arith}
use windrpc.Spec.{combined_id, event_id}
use windrpc.Spec.Ids.{event_id_collision}

event_id_collision_example : event_id 7 200 ≡ combined_id 7 200
event_id_collision_example = event_id_collision 7 200 (omega arith) (omega arith)
