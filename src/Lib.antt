-- ===== src/Lib.antt =====
-- NAS-OS, backend/nasos: a NAS manager in two processes. The web process (services/, api/) has no
-- privileges; it asks the root agent (agent/) over an RPC, and the agent runs commands through
-- the adapters of system/. This library models the parts whose faults lose data or block the
-- agent, and states what they promise.
--
-- Parts and files:
-- - Common: equality, lists, dicts in insertion order, results, exceptions (`Exc` has a case for
--   each exception class that the modelled code raises or catches), text operations of Python.
-- - Config: `Settings` and `system_path` of config.py.
-- - Storage.Device: the inventory and the tree of block devices of rpc/schemas.py, with `_flatten`.
-- - Storage.Guard: `compute_protected` of services/storage/guard.py. `_walk` changes the nodes in
--   place; the model returns the marked tree beside the reason.
-- - Storage.Spec, Storage.Steps: `StoragePlanSpec` with its validation, and `build_steps` of
--   system/storage_plan.py with the argument vectors of parted, mdadm, lvm and mkfs.
--   Storage.Steps.Devices reads which devices a command writes to, of each tool.
-- - Storage.Resolve: `_resolve_spec` of agent/handlers/storage.py, the agent's own check of a plan
--   against the inventory that it has just gathered.
-- - Storage.Plan, Storage.Plan.Store, Storage.Bytes: `create_plan`, `execute_plan` and `PlanStore`
--   of services/storage/plan.py. The HMAC and the call of the agent are parameters. An execution is
--   a beginning, the awaited call, and an end; Storage.Plan.Requests has the steps of other requests.
-- - System.ManagedFile: `ManagedFile` of system/managedfile.py over a dict from paths to files. Each
--   read, write and unlinking may raise, as the interface `Io` says, and so may the runner; the
--   validating and applying tools are functions that may raise and keep a state of their own.
-- - Agent.Jobs: `JobRunner` of agent/jobs.py as a state machine: an action for each place where
--   a task resumes, `step` with no result where the code waits, and `Reach` for the reachable
--   states.
-- - Storage.Execute: the job that `execute_plan` of agent/handlers/storage.py submits, with
--   system/mount_units.py, as a program over a machine that records the commands that were run. The
--   runner, the inventory, systemd and the write of a managed file are the interface `Host`.
-- - Agent.Uploads: agent/handlers/uploads.py, `write_chunk` of agent/filedata.py and
--   `_op_upload_chunk` of agent/fileworker.py over a dict from paths to bytes. A failing write has
--   written some of its bytes. `os.path.dirname`, `os.path.join` and error texts are parameters.
-- - Agent.Fileworkers: `FileWorkerSupervisor` of agent/fileworker_supervisor.py. Whether a
--   process lives, the pid of a new one and the children that `waitpid` reports are arguments.
-- - Events: `EventBus` of events/bus.py.
-- - Sessions: services/auth.py and the checks of web/deps.py over a table of sessions under the
--   hash of their token; the hash function is a parameter.
-- - Rpc.Transport: the calls in flight of `UnixSocketTransport` of rpc/transport.py.
-- - Rpc.Dispatcher: `handler` and `Dispatcher.handle` of agent/dispatcher.py.
-- - System.Users: `PosixUsers` of system/users.py with its two implementations; Agent.Users: the
--   handlers users.* and groups.* of the agent.
-- - Users: services/users.py, the table of the managed users beside the accounts; Users.Contract
--   is what the service relies on of the commands.
-- - Agent.Files: agent/handlers/files.py over an interface to the system calls; Agent.Files.Bodies
--   has the bodies of the jobs, whose cancellation is a parameter; Agent.Files.Others has archives,
--   properties and access lists.
-- - System.Samba: system/samba.py and agent/handlers/samba.py, which write their file through
--   System.ManagedFile.
-- - Storage.Health: services/storage/health.py; Storage.Inventory: agent/inventory.py with the
--   parsers of system/mdadm.py.
-- - Services: the call of the agent that the services share. Shares: services/shares.py, groups.py
--   and volumes.py, with the views of services/samba_config.py; Agent.Shares: the handlers of the
--   shares and volumes; System.Acl: system/acl.py.
--
-- How they interact: the web process makes a plan from the agent's inventory, which the guard has
-- marked; the store keeps it until it has been executed; the agent resolves its serials again under the guard, builds
-- the steps and runs them as a job. The services of the users and of the shares keep their tables
-- beside the system, which they change through the handlers of the agent, and have the configuration
-- of Samba written from the tables as a managed file.
--
-- Numbers are naturals. Times are nanoseconds, those of sessions seconds; a storage job's progress is
-- in millionths, that of a file job the items done and their number; sizes are bytes. A read of a clock, a drawn identifier and a time stamp are arguments
-- of the operation that takes them. No definition runs on fuel but `str` of a number, whose fuel is
-- the number itself plus one: each digit divides it by ten.
--
-- Not modelled: parsing the output of lsblk, vgs, smartctl and /proc; the sockets; the HTTP routers,
-- the CLI and the frontend, which are glue to FastAPI, argparse and React; logging.
pub mod Common
pub mod Config
pub mod Agent
pub mod System
pub mod Storage
pub mod Events
pub mod Sessions
pub mod Rpc
pub mod Notifications
pub mod Services
pub mod Users
pub mod Shares
pub mod Tests
