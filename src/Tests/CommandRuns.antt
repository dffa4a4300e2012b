-- ===== src/Tests/CommandRuns.antt =====
-- Environments of the two commands.
use minkube.Base.{ℕ, List, [], ◌∷◌, some, none, ◌≡◌, ◌≢◌, refl, arith, All}
use minkube.Base.Int.{pos}
use minkube.Base.Strconv.{atoi}
use minkube.Commands.{split_commas, start_manager, worker_port, workers_of}
use minkube.Commands.Laws.{
  codes, join_commas, HasNoComma, start_manager_lem, ReadAs, worker_port-ReadAs,
}
use minkube.Heap.{Heap}
use minkube.Manager.{Manager}
use minkube.Manager.Invariant.{Inv}
use minkube.Task.{zero_task}
use minkube.Tests.{fifo}

-- A comma at the end makes a worker without a name.
trailing_comma : split_commas "localhost:9001,b," ≡ "localhost:9001" ∷ "b" ∷ "" ∷ []
unfolding split_commas
trailing_comma = refl

none_set : workers_of "" ≡ none
unfolding workers_of
none_set = refl

abbrev start_heap : Heap
start_heap = record { next = 1; cell = λ p. zero_task }

start_manager_lem_example :
    (m : Manager (List ℕ)) × (start_manager start_heap "a:1,b:2" 0 ≡ some m)
    × Inv m
    × (m.workers ≢ [])
    × (join_commas m.workers ≡ codes "a:1,b:2")
    × All HasNoComma m.workers
start_manager_lem_example = start_manager_lem start_heap "a:1,b:2" 0 (omega arith) refl

ports :
    (worker_port "9001" ≡ pos 9001)
    × (worker_port "" ≡ pos 0)
    × (worker_port "http" ≡ pos 0)
    × (worker_port "99999999999999999999x" ≡ pos 9223372036854775807)
unfolding worker_port
ports = (refl, refl, refl, refl)

worker_port-ReadAs_example : ReadAs (atoi "9001") (worker_port "9001")
worker_port-ReadAs_example = worker_port-ReadAs "9001"
