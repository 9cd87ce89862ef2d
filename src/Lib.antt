-- ===== src/Lib.antt =====
-- A model of the core of urunc, a container runtime that starts unikernels: the settings, the
-- annotations that describe a guest, the choice of the guest's root filesystem, what its monitor gets from
-- the host, the command lines of guest and monitor, the processes that create and start a container, and
-- how it is stopped.
--
-- The parts and their files:
--   Annotations    pkg/unikontainers/annotations.go: UnikernelConfig, getConfigFromSpec, decode, Map and
--                  GetUnikernelConfig. Annotations/Values: validateValues and its checks, and the address
--                  format of vaccel.go. Annotations/Accepted, Survival and Source hold the proofs.
--   Settings       pkg/unikontainers/urunc_config.go: the records, the defaults and LoadUruncConfig.
--   Config         the same file: Map and UruncConfigFromMap. Config/Keys, Entries, Fields and Store say
--                  which key holds what, Config/RoundTrip what is read back.
--   Hypervisors    pkg/unikontainers/hypervisors: NewVMM (vmm.go), what each monitor supports, Stop and
--                  Signal. Hypervisors/Process: killProcess and signalProcess of utils.go.
--                  Hypervisors/Qemu, CloudHypervisor, Firecracker, Hyperlight and Solo5: BuildExecCmd.
--   Unikernels     pkg/unikontainers/unikernels: New, SupportsBlock and SupportsFS. Unikernels/Linux,
--                  Unikraft, Freebsd, Solo5 (mirage.go, rumprun.go) and Qemu (mewz.go, hermit_rs.go): Init,
--                  CommandString and what each gives its monitor. Unikernels/Urunit and Linux/Config: the
--                  configurations for urunit. Unikernels/Masks: subnetMaskToCIDR.
--   Block          pkg/unikontainers/block.go: findMountInfo, the block parameters and unmount.
--   Rootfs         ChooseRootfs (unikontainers.go) and the rootfsSelector (rootfs.go).
--   Resources      getMonitorResources and newRootfsBuilder (unikontainers.go), the builders of rootfs.go,
--                  block.go, shared_fs.go and initrd_rootfs.go, getBlockVolumes and restoreBlockVolumes.
--                  Resources/Confined, Memory, Taken, Turns and Restored hold the proofs.
--   Mount          pkg/unikontainers/mount.go: the options of mounts and the choice of the guest's mounts.
--                  Mount/Apply: applyMounts. Mount/Devices: setupDevices, fileFromHost and prepareRoot.
--                  Mount/Options, Binds and Flags hold the proofs.
--   Network        pkg/network: the container's interface and its addresses. Network/Setup: networkSetup
--                  and both NetworkSetup. Network/Teardown: CleanupAllUruncTaps. Network/Plan, Removed and
--                  Taps hold the proofs.
--   Shim           pkg/containerd-shim/containerd/annotations.go: the annotations of the image that go into
--                  config.json, and atomicWriteFile. Shim/Inject: patchConfigJSON and
--                  InjectUruncAnnotations. Shim/Lookups and Atomic hold the proofs.
--   Launch         buildMonitorSpec, confineToContainerRootfs and confineBlockSources (unikontainers.go), and
--                  getDNSServer (utils.go). Launch/Exec: SetupNet, setupUser, ExecuteHooks, execMonitor, and
--                  changeRoot and setupConsole of rootfs.go. Launch/Monitor: Exec, and runMonitor of
--                  monitor.go. Launch/Privileges, Prepares, Order, Confined and Executes hold the proofs.
--   Command        cmd/urunc: validateID, checkArgs and getUnikontainer (utils.go), parseSignal (kill.go),
--                  reviseRootDir (main.go) and the action of delete.go. Command/Child holds the proofs.
--   Lifecycle      cmd/urunc/create.go and start.go: createUnikontainer, reexecUnikontainer and
--                  startUnikontainer as steps on a shared world. Lifecycle/Ipc: ipc.go. Lifecycle/States:
--                  the state of New, InitialSetup, Create and SetRunningState. Lifecycle/Requests, Reports,
--                  Order, Status and Oci hold the proofs.
--   Container      pkg/unikontainers/unikontainers.go: Signal, Kill and isRunning. Container/Namespaces:
--                  FormatNsenterInfo, checkValidNsPath and findNS. Container/Delete: Delete. Container/Saved:
--                  the annotations of state.json, of New and saveContainerState.
--   VAccel         pkg/unikontainers/vaccel.go: idToGuestCID, isValidVSockAddress, resolveVAccelConfig, and
--                  the variable that Exec sets for the guest. VAccel/Accepted holds the proofs.
--   Initrd         pkg/unikontainers/initrd/initrd.go: MergeFileMountsIntoInitrd. The cpio reader and writer
--                  are lists of records. Initrd/Allocator and Inodes hold the proofs.
--   Types          pkg/unikontainers/types/types.go.
--   Prelude        maps, results, text, and what the code uses of strconv, strings and path/filepath.
--   Tests          runs on concrete inputs.
--
-- How they interact. Create reads the guest's configuration (Annotations) and the settings (Settings),
-- and writes the settings to the annotations of state.json (Config). A later command reads them back, and
-- with them chooses a monitor (Hypervisors) and a guest (Unikernels). The choice of a root filesystem
-- (Rootfs) asks both, and the host's mounts (Block); with it the monitor's mounts, devices and block
-- parameters are collected (Resources). The guest then makes its command line, and the monitor its own,
-- which asks the guest through the record Guest. Create, the process that it starts and start
-- exchange messages over a pipe and two sockets (Lifecycle). That process sets up the network (Network),
-- the monitor's root filesystem (Mount) and vAccel, changes its root, confines the guest's files, becomes the
-- container's user and executes the monitor (Launch). Kill, Signal and Delete (Container) stop the
-- monitor. The commands check the container's name and the root directory first (Command).
--
-- How the code corresponds. A struct is a record, with the source's words. An error is a value of a
-- result type, one constructor for each kind that a caller tells apart. A Go map is a list of entries, so
-- a theorem on a range loop holds for every order of the entries. An unsigned size is a natural number;
-- a round trip asks that it is below 2^63, which is what strconv.Atoi reads, and arithmetic on uint64
-- keeps its remainder by 2^64. len(s) counts the bytes of
-- the UTF-8 encoding. Regular expressions are written out as tests on characters and parts. Appending to a
-- slice of arguments is the concatenation of its parts; a strings.Builder is the list of what is written.
--
-- In Lifecycle each process is a phase and a copy of the state. A step is the code between two points at
-- which a process shares something; any failure in between is the step create_fails, reexec_fails,
-- exec_fails or start_fails. A pipe or socket keeps all that was written to it, since each has one reader
-- that reads once. There is one process of each kind. A run is orderly when start begins after create has
-- returned.
--
-- What the system answers is an argument: kill(2), stat(2), statfs(2) and umount(2), exec.LookPath, the
-- clock, the mountinfo, and which files exist; so are Base64, the TOML and JSON decoders, the JSON encoding of
-- a string, securejoin, the versions' order and the parsing of IP addresses. The calls of
-- kill(2) and the actions of Delete come back as a trace beside the result. In Network, Mount, Shim,
-- Launch, Command and Resources/Volumes the code is a function of the calls made so far (Prelude/Traced):
-- an answer may depend on all of them, and a theorem holds for every such host. Resources/Builders hands on
-- the answer of getBlockVolumes without its calls, which nothing there asks for. A part of Launch that Network or Mount models sees only the calls that
-- it has made itself, and its failing calls are those of its own record.
--
-- Bounds. The loop of killProcess runs on 22 rounds of fuel: its deadline is 2000 ms after its start and a
-- round sleeps 100 ms, so the deadline passes before the fuel is used up. Printing a number in
-- base 10 has a round for each unit of the number and one more, which is more than it has digits. The
-- dialling of sendIPCMessageWithRetry has the 50 rounds that its counter allows, and the padding of a
-- configuration the 512 bytes of a sector. The loop of the inode allocator has a round for each number
-- from its next one up to 2^32 - 1.
--
-- Not modelled: the session and the task service of the containerd shim, the parser of the command line,
-- libcontainer mode, the bytes of initrd archives and the JSON of the monitor's specification.
-- Logging and metrics have no effect on the results and are left out.
pub mod Prelude
pub mod Types
pub mod Annotations
pub mod Settings
pub mod Config
pub mod Hypervisors
pub mod Container
pub mod Unikernels
pub mod Block
pub mod Rootfs
pub mod Mount
pub mod Lifecycle
pub mod VAccel
pub mod Initrd
pub mod Network
pub mod Shim
pub mod Launch
pub mod Command
pub mod Resources
pub mod Tests
