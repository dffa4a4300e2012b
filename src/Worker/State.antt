-- ===== src/Worker/State.antt =====
-- internal/worker/service/state_machine.go: how a worker can take tasks.
use minkube.Base.{Bool, true, false}

pub data State : Type 0 where
  ready unhealthy overloaded : State

pub State-discrete : Discrete State
State-discrete = hlevel

-- `s == worker.Ready`
abbrev pub is_ready : State → Bool
is_ready ready = true
is_ready _ = false
