-- ===== src/Tests/Registry.antt =====
-- Runs of lib/registry/client.go against a small registry.
use makisu.Base.{
  ℕ, suc, take, drop, Bool, true, false, Option, some, List, [], ◌∷◌, ◌≡◌, ◌↔◌, ◌⊎◌, refl, codes,
  ok, Bytes, length, bytes_eq, if◌then◌else◌, arith, map,
}
use makisu.Cache.{hex}
use makisu.Registry.Http
use makisu.Registry.Http.{
  History, Request, Answer, response, Response, failure, Outside, SendError, head, get, post, put,
  patch, status, send, is_failure, should_retry, is_retryable_code, is_status, is_network_error,
  is_retryable, mem_code,
}
use makisu.Registry.Transport.{is_accepted, reads_once}
use makisu.Registry.Upload.{
  with_security, Layers, push_layer_content, push_one_layer_chunk, backoff,
}
use makisu.Registry.Chunks.{Ends, push_layer_content-Ends}
use makisu.Registry.Content.{IsSteady}
use makisu.Registry.Client.{
  DockerRegistryClient, Codec, manifest_query, push_layer_helper, commit_layer, manifest_exists,
  push_manifest, errors_of, may_retry, push_layer_with_backoff,
}
use makisu.Registry.Delivered.{Delivered, Ended, push_layer_helper-Delivered}
use makisu.Registry.Backoff.{
  IsLast, errors_in, history_after, result_of, push_layer_with_backoff-errors,
}
use makisu.Registry.Pool
use makisu.Registry.Pool.{WorkerPool, new_worker_pool, IsDone, Reach}
use makisu.Registry.Pool.Waits.{Inevitable, new_worker_pool-Inevitable}
use makisu.Registry.Pool.Complete.{In, any_failed}
use makisu.Registry.Push.{DistributionManifest, Manifests, push_tasks, push_task, push}
use makisu.Registry.Push.Pushed.{Task, exchanges, TaskRuns, IsPushed, push_complete}

-- A registry that has no blob and takes each.
abbrev says : ℕ → Answer
says code =
    response
      (record { code = code; location = codes "/u"; content_type = []; body = []; broken = false })

abbrev code_for : Http.Method → ℕ
code_for head = 404
code_for get = 404
code_for post = 202
code_for patch = 202
code_for put = 201

abbrev empty_registry : Outside
empty_registry = record {
  answer = λ h q. says (code_for q.method);
  reads = λ h q. if is_accepted q.method (says (code_for q.method)) then length q.body else 0;
  elapsed = λ h. false;
  push_elapsed = λ h. false;
  is_url = λ u. true;
  is_http = λ u. true;
  add_digest = λ u d. some u;
  security = λ h. some false;
}

-- Uploads in chunks of two bytes, and no retries.
abbrev client : DockerRegistryClient
client = record {
  config = record { concurrency = 1; retry_disabled = false; retries = 1; push_chunk = some 2 };
  registry = codes "r";
  repository = codes "i";
}

abbrev three_bytes : Layers
three_bytes = record { store_stat = λ n. some 3; store_reader = λ n. some (7 ∷ 8 ∷ 9 ∷ []) }

three_bytes-IsSteady : IsSteady three_bytes
three_bytes-IsSteady name size content s r = ground arith

abbrev layer : Bytes
layer = codes "sha256:a"

push_layer_content-Ends_example :
    Ends (push_layer_content empty_registry client.config three_bytes layer (codes "/u") [])
push_layer_content-Ends_example =
    push_layer_content-Ends empty_registry client.config three_bytes layer (codes "/u") [] (λ e. cc)

-- The ranges of a history, the first request first: `2-1` in the middle is an empty chunk.
abbrev ranges : History → List (Option (ℕ × ℕ))
ranges h = map (λ (e : Request × Answer). e.0.content_range) h

-- The loop computes the next end from the start of the chunk before, so that every second chunk is
-- empty.
every_second_chunk :
    ranges (push_layer_content empty_registry client.config three_bytes layer (codes "/u") []).1
    ≡ some (2, 3) ∷ some (2, 2) ∷ some (0, 2) ∷ []
unfolding push_layer_content push_one_layer_chunk send is_failure should_retry is_retryable_code
    bytes_eq
every_second_chunk = refl

pushed : (push_layer_helper empty_registry client three_bytes layer []).0 ≡ ok tt
unfolding push_layer_helper commit_layer push_layer_content push_one_layer_chunk send is_failure
    should_retry is_retryable_code bytes_eq
pushed = refl

read_once :
    reads_once empty_registry (push_layer_helper empty_registry client three_bytes layer []).1
    ≡ true
unfolding push_layer_helper commit_layer push_layer_content push_one_layer_chunk send is_failure
    should_retry is_retryable_code bytes_eq reads_once take drop
read_once = refl

push_layer_helper-Delivered_example :
    Delivered empty_registry client three_bytes layer
      (push_layer_helper empty_registry client three_bytes layer []).1
push_layer_helper-Delivered_example =
    push_layer_helper-Delivered empty_registry client three_bytes three_bytes-IsSteady layer []
      read_once (λ i. (pushed i, (push_layer_helper empty_registry client three_bytes layer []).1))

-- A registry that is down for its first answer: the second try succeeds, and the push has failed.
abbrev down_once : Outside
down_once = record empty_registry {
  answer = λ h q. elim h [ [] ↦ says 500 | e ∷ es ↦ says (code_for q.method) ];
  reads = λ h q. 0;
}

failed_though_pushed :
    (push_layer_with_backoff down_once client
      (record { store_stat = λ n. some 0; store_reader = λ n. some [] })
      layer
      []).0
    ≡ status 500 ∷ []
unfolding push_layer_with_backoff push_layer_helper commit_layer push_layer_content
    push_one_layer_chunk send is_failure should_retry is_retryable_code is_status errors_of
    may_retry is_network_error is_retryable bytes_eq
failed_though_pushed = refl

push_layer_with_backoff-errors_example :
    let empty : Layers = record { store_stat = λ n. some 0; store_reader = λ n. some [] } in
    (k : ℕ) × IsLast down_once client empty layer 1 k []
    × (push_layer_with_backoff down_once client empty layer [] ≡ (
      errors_in down_once client empty layer (suc k) [],
      history_after down_once client empty layer (suc k) [],
    ))
    × (((push_layer_with_backoff down_once client empty layer []).0 ≡ [])
        ↔ (result_of down_once client empty layer [] ≡ ok tt))
unfolding backoff
push_layer_with_backoff-errors_example =
    push_layer_with_backoff-errors down_once client
      (record { store_stat = λ n. some 0; store_reader = λ n. some [] }) layer []

-- A registry that is always down: the push reports the error of each try.
failed_twice :
    (push_layer_with_backoff
      (record down_once { answer = λ h q. says 500 })
      client
      three_bytes
      layer
      []).0
    ≡ status 500 ∷ status 500 ∷ []
unfolding push_layer_with_backoff push_layer_helper commit_layer push_layer_content
    push_one_layer_chunk send is_failure should_retry is_retryable_code is_status errors_of
    may_retry is_network_error is_retryable bytes_eq
failed_twice = refl

-- The pool with one task and one worker.
any_outcome : (t : ℕ) → (failed : Bool) × Unit {0}
any_outcome t = (true, tt)

new_worker_pool-Inevitable_example :
    Inevitable (λ (t : ℕ) (failed : Bool). Unit {0}) (new_worker_pool 1 (5 ∷ 6 ∷ []))
new_worker_pool-Inevitable_example =
    new_worker_pool-Inevitable (λ (t : ℕ) (failed : Bool). Unit {0}) any_outcome 1 (5 ∷ 6 ∷ [])

-- An image with one layer.
abbrev manifest : DistributionManifest
manifest = record { config = layer; layers = [] }

abbrev manifests : Manifests
manifests = record { store_reader = λ r t. some []; unmarshal_json = λ b. some manifest }

abbrev codec : Codec DistributionManifest
codec = record { marshal = λ m. some []; unmarshal = λ t b. some manifest }

task_done : push_task empty_registry client three_bytes layer [] ≡ false
unfolding push_task push_layer_with_backoff push_layer_helper commit_layer push_layer_content
    push_one_layer_chunk send is_failure should_retry is_retryable_code errors_of may_retry bytes_eq
task_done = refl

abbrev task : Task
task = record { digest = layer; out = empty_registry; start = [] }

abbrev after_push : WorkerPool Task
after_push = record {
  waiting = [];
  closed = true;
  stopped = false;
  idle = 0;
  running = [];
  finished = (task, false) ∷ [];
}

task_read_once :
    (t : Task) → In t (task ∷ []) → reads_once t.out (exchanges client three_bytes t) ≡ true
unfolding push_layer_with_backoff push_layer_helper commit_layer push_layer_content
    push_one_layer_chunk send is_failure should_retry is_retryable_code errors_of may_retry bytes_eq
    reads_once take drop
task_read_once t In.first = refl
task_read_once t (In.later m) = elim m [ ]

tasks_of_manifest : map (λ (t : Task). t.digest) (task ∷ []) ≡ push_tasks manifest
unfolding push_tasks
tasks_of_manifest = refl

run_of_pool : Reach (TaskRuns client three_bytes) (new_worker_pool 1 (task ∷ [])) after_push
unfolding new_worker_pool
run_of_pool =
    Reach.next
      (Reach.next
        (Reach.next (Reach.next Reach.here (Pool.Step.hand_over task [] 0 refl refl))
          (Pool.Step.finish [] [] task false refl task_done))
        (Pool.Step.close refl refl))
      (Pool.Step.return 0 refl refl)

accepted : (push empty_registry client manifests codec after_push (codes "t") []).0 ≡ ok tt
unfolding push with_security any_failed manifest_exists push_manifest send is_failure should_retry
    is_retryable_code
accepted = refl

push_complete_example :
    ((d : Bytes)
      → In d manifest.layers ⊎ (d ≡ manifest.config)
      → (t : Task) × In t (task ∷ [])
        × (hex t.digest ≡ hex d)
        × TaskRuns client three_bytes t false
        × IsPushed client three_bytes t)
    × ((r : Response) × (mem_code r.code (200 ∷ 201 ∷ []) ≡ true)
        × Ended put
            (manifest_query client (codes "t"))
            (response r)
            (push empty_registry client manifests codec after_push (codes "t") []).1)
push_complete_example =
    push_complete client three_bytes manifests codec three_bytes-IsSteady (omega arith)
      empty_registry (codes "t") [] manifest (task ∷ []) after_push [] refl refl tasks_of_manifest
      task_read_once run_of_pool
      (record { is_closed = refl; returned = record { none_idle = refl; none_running = refl } })
      (λ i. (accepted i, (push empty_registry client manifests codec after_push (codes "t") []).1))
