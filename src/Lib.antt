-- ===== src/Lib.antt =====
-- Verification library of the vLLM dashboard: a FastAPI backend that starts, stops and watches one
-- vLLM server on a remote GPU machine over SSH, keeps a registry of models, runs deployments there,
-- and serves a console and an access log to browsers. Paths are from the repository's root.
--
-- The parts and the files that model them:
--   Schemas              backend/schemas/model.py: ModelInfo and ModelConfig.
--   StateMachine         backend/controller/state_machine.py: the registry with its debounced and
--                        retried save; StateMachine/Methods, one function per method;
--                        StateMachine/Load, the load at a restart.
--   World                the module variables of backend/service/model_watchdog.py and
--                        model_lifecycle.py beside the registry, with asyncio's delayed tasks; the
--                        crash breaker (on_model_crash, _clear).
--   Watchdog             backend/service/model_watchdog.py: restart attempts, tick, lock, start, stop.
--   Lifecycle            backend/service/model_lifecycle.py: start, stop, start probe, the wait for
--                        the remote process, and the stop window of a deployment.
--   Sync                 backend/service/model_status_sync.py: the round that compares the registry
--                        with what the vLLM API answers.
--   Tickets              backend/ws/ticket.py, backend/api/ws_auth.py: one-time WebSocket tickets.
--   Access               backend/middleware.py, backend/service/request_log.py: the chain of HTTP
--                        middleware and the access log; Access/Notes for
--                        backend/service/connection_notes.py.
--   Console              backend/console: the output buffer with its readers, the shared sessions.
--   SshPool              backend/executor/remote/ssh.py: SSHConnectionPool.
--   Deployment           backend/service: Deployment/Tasks and Tasks/Thread for
--                        deployment_task_manager.py, deployment_task_ctx.py and deployment_common.py,
--                        Deployment/Recovery for the restart, with Tasks/Thread again for the jobs
--                        that deployment_reattach.py takes up, Deployment/State for
--                        deployment_state.py; Deployment/Entry for deployment_entry.py, with the
--                        versions that fit together in Deployment/Versions (deployment_common.py,
--                        deployment_pipelines_env.py, deployment_pipelines_vllm.py);
--                        Deployment/Discovery for deployment_version_probe.py.
--   AccessLog            backend/service/vllm_access_log.py: the requests per address, the parsing of
--                        lines, and AccessLog/Tail, the polls that follow the log of vLLM.
--   Probe                backend/executor/remote/net_probe.py: the ICMP packet and the ping tracker;
--                        Probe/Ssh for ssh_probe.py, Probe/Bmc and Probe/Power for power_ops.py.
--   Settings             backend/config/server_config.py: the validators of the settings.
--   Config               backend/config/remote_client.py, credentials.py: the settings in memory and
--                        on disk, with their encrypted secrets.
--   Health               backend/config/api_target.py, connection_probes.py: the target of the API,
--                        the probes of a connection and their verdict.
--   Launch               backend/config/model_launch_config.py: the environment of a launch;
--                        Launch/Api, the port and key of the API; Launch/Store, the saved files.
--   RemoteJob            run_long of backend/service/deployment_task_ctx.py and the watch of
--                        backend/service/deployment_reattach.py: a background step and its log.
--   Downloads            backend/service/model_download_status.py, model_downloads.py: the status of a
--                        download, the guards of a new one; Downloads/Inflight, two requests at once.
--   Prelude              shared helpers, among them a backtracking matcher for Python's regular
--                        expressions; Examples: the properties at concrete inputs.
--
-- How they interact: the lifecycle, the sync, the watchdog and the deployments change the registry
-- through its methods. The sync and the start probe report crashes to the watchdog, which restarts
-- locked models through the lifecycle; the stop flags of the lifecycle tell the sync and the probe
-- which disappearances are meant. A deployment task opens the stop window before it kills vLLM.
--
-- Conventions. A method that runs under one lock is a function of the whole state, and a coroutine
-- or thread is cut where it awaits or gives up the lock, so that a history is a list, or a
-- relation, of such steps in any order. Clock readings, random tokens, and what a probe, a remote
-- command, a library parser or a file write answered are arguments. Times are natural numbers
-- (seconds, milliseconds or microseconds, as each file says). A loop runs over a list; the wait for
-- the remote process takes the list of its rounds. The checksum and the sequence number of an ICMP
-- packet wrap around at 16 bits, as written out; no other number of the modelled code does. Timers,
-- tasks, sessions and SSH clients are numbers. A poll of the access log and a middleware read the
-- clock once.
--
-- A text that the code takes apart is a list of code points, all of them ASCII, so that a character
-- is a byte; only the keys that the authentication compares may have other characters. The two
-- shell commands whose output the code counts bytes of, the poll of the access log and the poll of
-- a background step, are functions of the file; the shell strips the newlines at the end of what it
-- captures. The power-on of the server takes the list of its rounds: one second or the deadline
-- ends a pause, so that 121 rounds suffice for its 120 seconds. The matcher recurses on the
-- expression; a repetition has as many rounds as characters are left, which is enough since each
-- takes one.
--
-- Not modelled: the other shell command texts and the parsing of their output, the deployment
-- pipelines' commands, the metrics, the route handlers, and the frontend.
mod Prelude
pub mod Schemas
pub mod StateMachine
pub mod World
pub mod Watchdog
pub mod Lifecycle
pub mod Sync
pub mod Tickets
pub mod Access
pub mod Console
pub mod SshPool
pub mod Deployment
pub mod AccessLog
pub mod Probe
pub mod Settings
pub mod Config
pub mod Health
pub mod Launch
pub mod RemoteJob
pub mod Downloads
mod Examples
