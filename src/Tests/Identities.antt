-- ===== src/Tests/Identities.antt =====
-- The parts of an id.
use llm_worker.Base.{◌≡◌, arith}
use llm_worker.Worker.Decode.{id_parts, next_completion_id-id_parts}
use llm_worker.Worker.Ids.{next_completion_id}

next_completion_id-id_parts_example :
    id_parts (next_completion_id 0x19a_bcd0_1234 0x1_0007).0 ≡ (0x19a_bcd0_1234, 0x1_0007)
next_completion_id-id_parts_example =
    next_completion_id-id_parts 0x19a_bcd0_1234 0x1_0007 (omega arith) (omega arith) (omega arith)
