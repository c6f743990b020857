-- ===== src/Lib.antt =====
-- Verification of virtle, a manager of QEMU virtual machines: its launch and clean-up, its balloon
-- controller, its hotplug of devices, the launch decisions around suspend and resume, its process
-- supervision, the lifecycle of a running machine, the foreground session, the control socket and
-- the validation of manifests.
--
-- A launch takes the runtime lock, decides whether it resumes a saved state, and gets a vsock CID.
-- It starts helper processes and QEMU, whose monitor it talks to over a line-delimited connection.
-- While the machine runs, the balloon controller resizes it, devices are attached and detached, and
-- clients ask for a suspend or a shutdown; a teardown stops the processes in reverse order.
--
-- Each top module has the code of one part, and its children the proofs:
--   Prelude    names that are shared, Go's errors as trees with Join and Is, and the integers of Go
--              with their wrap-around.
--   Balloon    internal/manifest/balloon.go (Config: applyBalloonDefaults, validateBalloonDevice) and
--              backend/qemu/internal/balloon/controller.go (Evaluate: evaluate; Qom: resolveQOMPath;
--              Controller: tick, readSample, Run). The controller's state is passed in and returned.
--   Hotplug    backend/qemu/internal/hotplug: hotplug.go (Device: the plans of commands; Runner:
--              Attach, AttachDevice, Detach), qmp_adapter.go (Adapter), runtime.go (Registry). The host,
--              the monitor and the guest are a record of answers in Host, which depend on all that
--              happened before, and what is done is a history of events.
--   Launch     backend/qemu/internal/launch: suspend.go (Suspend, a step relation on the coordinator and
--              the launch that serves it), resume.go and state.go (Resume), cid.go (Cid),
--              runtime_lock.go (RuntimeLock); and saveSuspendStateConnected of
--              backend/qemu/internal/vmm/manager.go (Save).
--   Executor   internal/executor: process.go (Process: Stop), group.go (Group), executor.go
--              (LineLogger: the lines of a command's output).
--   Runtime    backend/qemu/internal/runtime: state.go (State), closer.go (Closer), concrete.go and
--              lifecycle.go (Core, a step relation in which a suspend is two steps and a teardown one
--              for each of its actions); backend/qemu/internal/qmpclient/migration.go (Migration).
--   Wire       backend/qemu/internal/qmpwire: session.go (Frame: frameReader; Session: Session.do),
--              qmpwire.go (Dial: DialWithRetry).
--   GuestAgent backend/qemu/internal/qga: qga.go (Sync: synchronize; Exec: Exec, ExecStatus, Shutdown),
--              exec.go (Exec: RunCommandStatus).
--   SshTools   internal/sshtools/ssh.go: ClassifyFailure, and RetryOutput (RetryOutput), whose timer is a
--              flush that can happen at any point.
--   Vmm        backend/qemu/internal/vmm: startup.go (Startup: startWithPlan with its deferred function;
--              Quit: the function given to SetShutdown), manager.go (startRuns in Startup, quitFreshQMP in
--              Quit, saveAndExit in Handle), api.go (Handle: VM, a step relation whose steps are the
--              operations). What the calls answer is a record, and what is done a list of actions. qemu.go
--              (Qemu: buildQEMUArgs, with AppendQEMUArgs of backend/qemu/internal/balloon/feature.go), in
--              which what the govmm library gives is a parameter.
--   Session    backend/qemu/session/session.go (Waits: the selects; Run: start, foreground, Run; ExitCode),
--              backend/qemu/internal/launch/ssh_session.go (Ssh: RunSSHSession) and the hooks of
--              backend/qemu/internal/sessionbridge/bridge.go. What a select sees is a list of events, an
--              attempt of ssh is what its surroundings answer, and what the session does is a list of
--              actions.
--   Manifest   internal/manifest/validate.go: applyDefaults and Validate (Validate, Devices), and
--              templateUsesBareWorkspace (Templates), which can panic.
--              resolve_manifest.go: parsePortEndpoint (Ports), normalizeForwardPort and resolveNetworkHotplug
--              (Networks), resolveForwardPorts and resolveNetwork (Networks/Options).
--   Readiness  internal/readiness/readiness.go: ReadToken, on the list of what its reads return.
--   Units      units/units.go: Bytes.String and ParseBytes, on lists of bytes.
--   Control    internal/control: router.go (Router: handle, methodsResponse), server.go (Server: Serve as a
--              step relation, handleConn).
--
-- A number that the code keeps non-negative is a natural number; where it can be negative or
-- overflow it is an integer that wraps to 64 bits. A pointer or an error that may be nil is an
-- Option. A Go map is an association list. Sections under a lock are single steps.
--
-- The loops are structural: over the cycles of the balloon controller, over the ports or CIDs that
-- are left, over the bytes that were read, over the events that a select sees, the attempts and the
-- polls that are made. The loops of the line logger and of the guest agent's synchronisation take a
-- byte in each round at least, and run for as many rounds as there are bytes (and one). Only the
-- migration's polling has no bound of its own: it runs for a number of rounds that is given; a
-- context that ends in round n leaves n + 1 rounds to run.
--
-- Not modelled: the JSON and the sockets under the QMP, guest agent and control clients; the files
-- that a launch writes to the guest; the manifest's decoding, and its resolution but for networks;
-- key files; the command line. These are input and output around the parts above. Durations of waits
-- are not modelled beyond whether they ended in time.
pub mod Prelude
pub mod Balloon
pub mod Hotplug
pub mod Launch
pub mod Executor
pub mod Runtime
pub mod Wire
pub mod SshTools
pub mod Session
pub mod GuestAgent
pub mod Manifest
pub mod Control
pub mod Vmm
pub mod Readiness
pub mod Units
