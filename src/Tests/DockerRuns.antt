-- ===== src/Tests/DockerRuns.antt =====
-- task/task.go: the theorems on Docker's operations with a concrete daemon.
use minkube.Base.{ℕ, suc, string_eq, ◌==◌, if◌then◌else◌, String, [], Option, none, some, ◌≡◌, refl}
use minkube.Base.Int.{pos}
use minkube.Task.{Error}
use minkube.Task.Docker.{ok, err, DockerClient, Docker, run}

-- A daemon that counts the calls; it pulls any image but "none", and finds no container.
abbrev pull : String → ℕ → Option Error × ℕ
pull image calls = (if image == "none" then some "no such image" else none, suc calls)

instance abbrev pub daemon : DockerClient ℕ
daemon = record {
  image_pull = pull;
  container_create = λ c calls. (ok "c1", suc calls);
  container_start = λ id calls. (none, suc calls);
  container_inspect = λ id calls. (err "no such container", suc calls);
  container_stop = λ id calls. (none, suc calls);
  container_remove = λ id calls. (none, suc calls);
}

abbrev docker_of : String → Docker
docker_of image = record {
  config = record {
    name = "web";
    cmd = [];
    image = image;
    memory = pos 0;
    disk = pos 0;
    env = [];
    restart_policy = "";
  };
  container_id = "";
}

missing_image : (run {D = ℕ} (docker_of "none") 0).0.error ≡ some "no such image"
unfolding run
missing_image = refl
