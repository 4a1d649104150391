-- ===== src/Tests/Tasks.antt =====
-- Tests of the dispatch of media processing (backend/signage/media_dispatch.py).
use digital_signage_project.Base.{ℕ, ◌≡◌, ◌+◌, refl, true, Option, some, [], ◌∷◌, get, arith}
use digital_signage_project.Models.{MediaStatus}
use digital_signage_project.Throttle.{ApiThrottle}
use digital_signage_project.Dispatch.{Settings, Queue, reserve, reserve_task}
use digital_signage_project.Dispatch.Retries.{retried, reserve_retries}
use digital_signage_project.Tests.Rows.{asset}

abbrev limits : Settings
limits = record {
  production = true;
  backend = "ecs";
  cluster = "media";
  task_definition = "worker:1";
  container_name = "worker";
  subnet_ids = 2;
  security_group_ids = 1;
  max_concurrent_tasks = 2;
  max_tasks_per_hour = 6;
  ambiguity_reuse_seconds = 60;
  startup_grace_seconds = 30;
  aws_connect_timeout_seconds = 2;
  aws_read_timeout_seconds = 5;
  retry_seconds = 60;
  max_dispatch_attempts = 3;
}

-- The keys of the dispatch states; the budget has the key 0.
abbrev key : ℕ → ℕ
key k = k + 1

abbrev state : ApiThrottle
state = record { key_hash = 6; attempts = 1; window_started_at = 10; blocked_until = some 10 }

-- An upload whose first call had an unknown outcome.
abbrev queue : Queue
queue = record {
  assets = asset 5 MediaStatus.quarantined ∷ [];
  throttles = state ∷ [];
  alerts = record { rows = []; next_id = 1 };
}

-- An upload that has not been dispatched.
abbrev waiting : Queue
waiting = record queue { throttles = [] }

reserve_retries_example :
    ((reserve limits key 20 true true 5 waiting).0 ≡ some 2)
    × ((reserve limits key 60000040 true true 5
          (retried limits key 5 (20 ∷ 30 ∷ 50 ∷ []) waiting)).0
        ≡ some 3)
unfolding get
reserve_retries_example =
    reserve_retries limits key 20 60000040 5 waiting (asset 5 MediaStatus.quarantined)
      (30 ∷ 50 ∷ []) refl refl refl (omega arith) (omega arith, (omega arith, tt))

abbrev task : Option ℕ × Queue
task = reserve_task limits key 0 70000000 true (some (0, [])) 5 queue
