-- ===== src/Pending/Overlap.antt =====
-- Two approvals that overlap: each loads the row before the other is settled.
use tag_pulse.Prelude.{string_eq, nat_eq}
use tag_pulse.Dict.{Dict}
