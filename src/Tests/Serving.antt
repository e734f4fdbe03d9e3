-- ===== src/Tests/Serving.antt =====
-- Runs of the event bus, the supervisor of the fileworkers and the uploads.
use nas_os.Common.{
  ℕ, String, ◌<>◌, Bool, true, none, some, List, [], ◌∷◌, ◌++◌, ok, ◌≡◌, refl, string_eq, nat_eq,
}
use mathlib.Core.List.{flatten}
use nas_os.Common.Dict
use nas_os.Common.Dict.{Dict}
use nas_os.Events.{EventBus, subscribe, publish_all}
use nas_os.Events.Newest.{newest, queue_at, queue_in, items_of, queue_at-publish_all}
use nas_os.Agent.Fileworkers.{
  Worker, FileWorkerSupervisor, new_supervisor, socket_path_for, ensure, reap_one, Reach, initial,
  ensured,
}
use nas_os.Agent.Fileworkers.Agree.{Agree, Reach-Agree, Reach-distinct, Reach-respawns}
use nas_os.Agent.Uploads.{WorkerState, part_path_for, upload_begin, upload_complete, upload_abort}
use nas_os.Agent.Uploads.Resume.{send, upload_complete-send}
use nas_os.Agent.Uploads.Private.{attempt_all, upload_abort-attempt_all}

abbrev bus : EventBus ℕ
bus = subscribe "metrics" 1 []

subscribed : queue_at "metrics" 1 bus ≡ some (newest [])
unfolding subscribe queue_in newest Dict.lookup Dict.insert string_eq nat_eq
subscribed = refl

abbrev events : List (String × ℕ)
events = ("metrics", 5) ∷ ("jobs", 6) ∷ ("metrics", 7) ∷ []

queue_at-publish_all_example :
    queue_at "metrics" 1 (publish_all events bus) ≡ some (newest ([] ++ items_of "metrics" events))
queue_at-publish_all_example = queue_at-publish_all "metrics" 1 events [] bus subscribed

metrics_items : newest (items_of "metrics" events) ≡ 5 ∷ 7 ∷ []
unfolding items_of newest string_eq
metrics_items = refl

abbrev all_alive : ℕ → Bool
all_alive _ = true

abbrev supervisor : FileWorkerSupervisor
supervisor = (ensure (new_supervisor "/run/nasos") 1000 all_alive (ok 77)).1

abbrev two_workers : FileWorkerSupervisor
two_workers = (ensure supervisor 1001 all_alive (ok 78)).1

fresh : Dict.lookup 78 supervisor.pid_to_uid ≡ none
unfolding ensure Dict.lookup Dict.insert nat_eq
fresh = refl

two_workers_reached : Reach two_workers
unfolding Dict.lookup
two_workers_reached =
    ensured 1001 78 all_alive (ensured 1000 77 all_alive (initial "/run/nasos") refl) fresh

abbrev worker : Worker
worker = record { pid = 77; socket_path = socket_path_for (new_supervisor "/run/nasos") 1000 }

worker_found : Dict.lookup 1000 two_workers.workers ≡ some worker
unfolding ensure Dict.lookup Dict.insert nat_eq socket_path_for
worker_found = refl

Reach-Agree_example : Agree two_workers
Reach-Agree_example = Reach-Agree two_workers_reached

Reach-distinct_example : ◌≡◌ {A = ℕ} 1000 1000
Reach-distinct_example =
    Reach-distinct two_workers_reached 1000 1000 worker worker worker_found worker_found refl

Reach-respawns_example :
    ((ensure (reap_one two_workers 77) 1000 all_alive (ok 79)).0
      ≡ ok (socket_path_for two_workers 1000))
    × (Dict.lookup 1000 (ensure (reap_one two_workers 77) 1000 all_alive (ok 79)).1.workers
        ≡ some (record { pid = 79; socket_path = socket_path_for two_workers 1000 }))
Reach-respawns_example = Reach-respawns two_workers_reached 1000 79 worker all_alive worker_found

-- Stand-ins for `os.path` and the text of an error.
abbrev dirname : String → String
dirname _ = "/srv"

abbrev path_join : String → String → String
path_join directory name = directory <> ("/" <> name)

abbrev missing : String → String
missing path = "no such file: " <> path

abbrev no_uploads : WorkerState
no_uploads = record { uploads = []; files = ("/srv/old", 9 ∷ []) ∷ [] }

abbrev part : String
part = part_path_for dirname path_join "/srv/a" "u1"

dest_absent : Dict.lookup "/srv/a" no_uploads.files ≡ none
unfolding Dict.lookup string_eq
dest_absent = refl

part_absent : Dict.lookup part no_uploads.files ≡ none
unfolding Dict.lookup string_eq part_path_for
part_absent = refl

abbrev received : WorkerState
received =
    (send missing "u1" ((1 ∷ 2 ∷ []) ∷ (3 ∷ []) ∷ []) 0
      (upload_begin dirname path_join none "u1" "/srv/a" no_uploads).1).1

upload_complete-send_example :
    ((upload_complete missing none "u1" received).0 ≡ ok tt)
    × (Dict.lookup "/srv/a" (upload_complete missing none "u1" received).1.files
        ≡ some (flatten ((1 ∷ 2 ∷ []) ∷ (3 ∷ []) ∷ [])))
    × (Dict.lookup part (upload_complete missing none "u1" received).1.files ≡ none)
    × (Dict.lookup "u1" (upload_complete missing none "u1" received).1.uploads ≡ none)
unfolding part_path_for string_eq
upload_complete-send_example =
    upload_complete-send missing dirname path_join "u1" "/srv/a" ((1 ∷ 2 ∷ []) ∷ (3 ∷ []) ∷ [])
      no_uploads dest_absent part_absent refl

abbrev aborted : WorkerState
aborted =
    (upload_abort none "u1" (
      attempt_all missing "u1" ((none, 4, 1 ∷ []) ∷ (some (0, "no space"), 0, 2 ∷ []) ∷ [])
        (upload_begin dirname path_join none "u1" "/srv/a" no_uploads).1)).1

upload_abort-attempt_all_example :
    Dict.lookup "/srv/old" aborted.files ≡ Dict.lookup "/srv/old" no_uploads.files
unfolding part_path_for string_eq
upload_abort-attempt_all_example =
    upload_abort-attempt_all dirname path_join missing "u1" "/srv/a" "/srv/old"
      ((none, 4, 1 ∷ []) ∷ (some (0, "no space"), 0, 2 ∷ []) ∷ []) no_uploads dest_absent
