-- ===== src/Lib.antt =====
-- minkube is a small orchestrator of containers. A manager takes tasks over HTTP, queues them and
-- sends each to a worker; workers start and stop containers through Docker, and the manager asks
-- them at intervals for the state of their tasks and whether they can be reached.
--
-- The files, and the code that each models:
--   Base: Go's int, maps, slices, sort.Search and strconv.Atoi, and the interface of the queue.
--   Heap: the objects that pointers of type *task.Task lead to.
--   Http: what a handler answers, and Go's slices of slices.
--   Task: task/task.go and task/state_machine.go. Task/Docker: Docker's Run, Stop, IsRunning and
--     InspectContainer, over a record of the Docker client's calls.
--   Worker/State: internal/worker/service/state_machine.go. The other children of Worker are
--     internal/worker/service/worker.go. Service: the queue, the task table and the mutex; how tasks
--     are started and stopped (Start: what a started task leaves). Monitor: GetTask, IsTaskRunning,
--     InspectTask and MonitorTasks. Stream: ProcessDockerStream, and Utf8 the strings.ToValidUTF8
--     that it applies to each payload. Invariant: what each operation keeps of the table and queue.
--     Stats: internal/worker/stats/stats.go and CollectStats.
--   Manager: internal/manager/manager.go. Manager is its state, New and the reads of a worker's
--     entries. Its children have the operations: Sorted (AddTask, findTaskInSortedList and
--     InsertSorted), Select (SelectWorker), Send (SendWork), Update (updateTasks), Cleanup
--     (CleanUpTasks) and Health (MarkWorkerUp, MarkWorkerDown, HealthCheckWorkers). Invariant states
--     what all of them keep.
--   System: cmd/manager/main.go. The goroutines of the manager's process as a step relation, with
--     SendWork, the SelectWorker in it and StopTaskHandler cut where they let go of the lock, and the
--     accesses that SendWork makes to the task without it as steps of their own. Keeps, Sending and
--     Safety are what every interleaving keeps, Sequential puts SendWork and StopTaskHandler as a
--     whole among the interleavings.
--   Locks: the manager's sync.RWMutex (manager.go) and its goroutines as lists of locked sections,
--     in the order of the code of each function, the handlers of ManagerHttp included. Invariant is
--     what the moves keep of the lock; Progress, Finish and Deadlock say when the goroutines can always go on and when they wait for ever.
--   Commands: the environment of cmd/manager/main.go and cmd/worker/main.go.
--   ManagerHttp: internal/manager/http. Auth and Auth/Token are api.go (keys, permissions, rate
--     limits, the middlewares), Paging and Handlers are handlers.go. Serve takes a request through the
--     middlewares to its handler.
--   WorkerProcess: cmd/worker/main.go. The goroutines of a worker's process as a step relation, with
--     RunTasks and MonitorTasks of worker.go cut where they let go of the lock, and what every
--     interleaving keeps; Worker/Invariant is that of each operation. Blocked is the process
--     once RunTasks hangs.
--   WorkerHttp: internal/worker/http. Serve is api.go, the routes with their locks. Of handlers.go
--     Paging is GetTasksHandler, Handlers are StartTaskHandler, StopTaskHandler and GetStatsHandler,
--     Logs is GetDockerTaskLogsHandler with GetDockerTaskLogs of worker.go and
--     GetDockerContainerLogs of task/task.go, and Stats is what GetStatsHandler answers after
--     CollectStats.
--   Cluster: a worker's answer to the manager that asks for its tasks, as updateTasks decodes it.
--     Stopped is what the manager sees of a worker whose RunTasks hangs.
--   Tests: concrete managers and requests.
--
-- The task table, the sorted list and the queue hold addresses of the heap, so that the handlers,
-- SendWork and updateTasks change one shared object, as in the source. What a request to a worker
-- gives, the current time, fresh IDs and the order in which a map is visited are arguments. Each
-- function runs while its goroutine holds the manager's lock; the goroutines of a round are a list in
-- the order in which they take it. An int has 64 bits and wraps; lengths of slices are natural
-- numbers below 2 ^ 63. A panic is `none`, or a constructor of its own.
--
-- A worker's mutex is part of its state: a goroutine that asks for a lock that it holds itself waits
-- for ever, which is an outcome beside returning and panicking. Bytes of a log are numbers below 256,
-- and a payload's text is kept as its bytes.
--
-- The queue package is a record of operations with its first-in first-out laws, which a list
-- satisfies. uuid.Parse, json.Marshal, goprocinfo, the operations of float64 and the Docker client,
-- with the streams of its logs, are parameters. The loop of sort.Search has the length of the list as
-- fuel, and each round halves the range. The loop of ProcessDockerStream has one more than the length
-- of the stream, and each round but the last takes at least the 8 bytes of a header. So the fuel is
-- enough. The other loops recurse on lists.
--
-- In Locks a call of Lock shuts out new readers before it waits for those that are there, as
-- sync.RWMutex documents, and any number of goroutines may start at any time.
--
-- Not modelled: JSON and the texts of messages, how chi matches a path (the route is part of a
-- request), the files and debug pages that the manager serves, timers and sleeps, calls of the
-- worker's queue that overlap (AddTask does not hold the lock), reads of a task that see half of
-- another goroutine's write, a JSON null in a worker's list of tasks, the servers,
-- signals and the Docker client of the commands, and the scheduler, node and roundrobin packages,
-- which nothing calls.
pub mod Base
pub mod Cluster
pub mod Commands
pub mod Heap
pub mod Http
pub mod Locks
pub mod Manager
pub mod ManagerHttp
pub mod System
pub mod Task
pub mod Tests
pub mod Worker
pub mod WorkerHttp
pub mod WorkerProcess
