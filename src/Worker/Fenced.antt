-- ===== src/Worker/Fenced.antt =====
-- What the worker of server/distributedExecution.js does under its lease, and what it leaves.
use qase.Common.{Bool, true, false}
use qase.Worker.{Point, ended}

abbrev pub is_ended : Point → Bool
is_ended ended = true
is_ended _ = false
