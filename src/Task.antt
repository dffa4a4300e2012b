-- ===== src/Task.antt =====
-- task/task.go and task/state_machine.go: the data of a task, its states and events.
pub mod Docker
use minkube.Base.{ℕ, String, Option, List, [], Bool, true, false}
use minkube.Base.Int.{ℤ, pos}
use minkube.Base.GoMap.{GoMap}
use minkube.Base.GoMap
use mathlib.Core.Logic.{ite}

-- A `time.Time` as the nanoseconds since Go's zero time; the zero value is 0.
abbrev pub Time : Type 0
Time = ℕ

-- A `uuid.UUID` is an array of 16 bytes that the program only compares: the number they spell.
abbrev pub Uuid : Type 0
Uuid = ℕ

-- A Go error by the text of its message.
abbrev pub Error : Type 0
Error = String

pub data State : Type 0 where
  pending scheduled running completed failed : State

pub State-discrete : Discrete State
State-discrete = hlevel

-- `s == task.Completed` and `s == task.Running`
abbrev pub is_completed : State → Bool
is_completed completed = true
is_completed _ = false

abbrev pub is_running : State → Bool
is_running running = true
is_running _ = false

-- `s != t`
abbrev pub differs : State → State → Bool
differs s t = ite (State-discrete s t) false true

-- `nat.PortSet` and `nat.PortMap`, which the program only passes on.
abbrev pub PortSet : Type 0
PortSet = GoMap String (Unit {0})

abbrev pub PortMap : Type 0
PortMap = GoMap String (List (String × String))

pub record Task : Type 0 where
  pub id : Uuid
  pub container_id : String
  pub correlation_id : String
  pub name : String
  pub state : State
  pub image : String
  pub memory : ℤ
  pub disk : ℤ
  pub exposed_port_set : PortSet
  pub host_ports : PortMap
  pub port_bindings : GoMap String String
  pub restart_policy : String
  pub start_time : Time
  pub end_time : Time
  pub health_check : String
  pub retry_count : ℤ
  pub max_retry_count : ℤ

-- The zero value `Task{}`.
unfoldable pub zero_task : Task
zero_task = record {
  id = 0;
  container_id = "";
  correlation_id = "";
  name = "";
  state = pending;
  image = "";
  memory = pos 0;
  disk = pos 0;
  exposed_port_set = GoMap.empty;
  host_ports = GoMap.empty;
  port_bindings = GoMap.empty;
  restart_policy = "";
  start_time = 0;
  end_time = 0;
  health_check = "";
  retry_count = pos 0;
  max_retry_count = pos 0;
}

pub record StartTaskRequest : Type 0 where
  pub name : String
  pub image : String
  pub memory : ℤ
  pub disk : ℤ
  pub restart_policy : String
  pub port_bindings : GoMap String String

pub record StartTaskEventRequest : Type 0 where
  pub task : StartTaskRequest

pub record TaskEvent : Type 0 where
  pub id : Uuid
  pub state : State
  pub timestamp : Time
  pub task : Task

-- What the program reads of a container's description: its state and its network settings, both of
-- which may be missing. Of the settings it reads the ports.
pub record ContainerState : Type 0 where
  pub status : String
  pub running : Bool

pub record ContainerJson : Type 0 where
  pub state : Option ContainerState
  pub network_settings : Option PortMap

-- The result of a Docker operation; `error` is nil for `none`.
pub record DockerResult : Type 0 where
  pub error : Option Error
  pub action : String
  pub container_id : String
  pub result : String

pub record DockerInspectResponse : Type 0 where
  pub error : Option Error
  pub container : Option ContainerJson

-- The container configuration; the fields that are never set or read are left out (CPU and the
-- three Attach flags).
pub record Config : Type 0 where
  pub name : String
  pub cmd : List String
  pub image : String
  pub memory : ℤ
  pub disk : ℤ
  pub env : List String
  pub restart_policy : String

unfoldable pub new_config : Task → Config
new_config t = record {
  name = t.name;
  cmd = [];
  image = t.image;
  memory = t.memory;
  disk = t.disk;
  env = [];
  restart_policy = t.restart_policy;
}
