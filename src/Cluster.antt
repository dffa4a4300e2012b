-- ===== src/Cluster.antt =====
-- internal/worker/http/handlers.go and internal/manager/manager.go: a worker's answer to the manager
-- that asks for its tasks.
pub mod Laws
pub mod Stopped
use minkube.Base.{ℕ, List, if◌then◌else◌, ◌==◌, nat_eq}
use minkube.Http.{Response, success, failure, panic}
use minkube.Manager.Update.{Reply, tasks, bad_status, send_error}
use minkube.Task.{Uuid}
use minkube.Worker.Service.{Worker}
use minkube.WorkerHttp.Paging.{TasksResponse, get_tasks_handler}

-- What updateTasks makes of the response. The tasks are decoded; the field of the page's numbers has
-- another name in the manager's type and is left out. A panic closes the connection.
unfoldable pub reply_of : Response TasksResponse → Reply
reply_of (success status r) = if status == 200 then tasks r.tasks else bad_status
reply_of (failure status) = bad_status
reply_of panic = send_error

-- The answer to the request for `/tasks?page=1&limit=1000`, by the order in which the worker visits
-- its table.
unfoldable pub report : {Q D : Type 0} → List Uuid → Worker Q D → Reply
unfolding reply_of get_tasks_handler
report order w = reply_of (get_tasks_handler "1" "1000" order w)
