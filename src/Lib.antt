-- ===== src/Lib.antt =====
-- Verification library of the Go systems laboratory.
--
-- The laboratory is a set of independent programs, one to a directory of labs/, each a main.go.
-- Every module here models one of them, over shared modules for what they use of Go:
--   Prelude (numbers, lists, Boolean tests, the outcome of a Go call, programs on one object), Bits
--   (masks), Bytes (byte slices, slicing, copying, little-endian integers, maps) and Text (strings,
--   strconv and the like).
--   Seccomp: labs/07-seccomp-capabilities/main.go. Filter is buildSeccompProgram, Machine the kernel's
--   classic BPF machine as far as the filter uses it, Capabilities parseCapabilities and
--   printCapabilities, Sandbox main, runSandbox and installStrictSeccomp on a thread whose system calls
--   the installed filter decides; Containment and Reported are about its two commands.
--   SharedMemory: labs/10-shared-memory-mmap/main.go. Layout is readMessage, Store initMapping and
--   writeMessage over the bytes of a mapping, Watch the loop of runWatch over the contents that its
--   ticks find, Files openSharedMapping over the scratch file, Commands main and the five commands;
--   Balance and Delivery are about whole commands.
--   Netlink: labs/08-netlink-route-monitoring/main.go. Messages, Attributes, Address and Format are the
--   functions that decode a message and print its line, Listener is main, openRouteSocket, readEvents
--   and monitor over what Recvfrom answers.
--   IoUring: labs/09-io-uring-async-io/main.go. Memory is loadUint32, storeUint32, sqeAt and cqeAt,
--   Submit is submitAndWait, waitCompletion and the requests, Mapping is mapRing, mmap and close,
--   Commands the commands, Main main. io_uring_enter and mmap are parameters; Answered says what is asked
--   of a kernel that answers a request.
--   Epoll: labs/04-epoll/main.go. Server is the loop of runServer; what the sockets answer is part of
--   each event. Setup is main and runServer in front of the loop, with the deferred closes.
--   Procfs: labs/01-procfs/main.go. Samples is parseCPULoad, parseCPUSamples and parseNetSamples,
--   Telemetry and Rates are the printing functions, Sections is main. The operations of float64 are
--   parameters.
--   Inotify: labs/02-inotify/main.go. Layout is the kernel's structure of an event, Events parseEvents,
--   Mask formatMask, Watch printEvent and the loop of main, Setup the rest of main.
--   Signals: labs/03-signals/main.go. Agent is handleSignal, cleanup, doWork and getCPULoad as steps of
--   two goroutines; Shutdown and Leaving are about its end.
--   Ebpf: labs/11-ebpf-xdp/main.go. Interfaces is validateInterfaceName, readOperState,
--   getInterfaceStatus and runCommands, Probes the probes, the list of the interfaces and main.
--   ByteSize: parseBytes of labs/05-resource-isolation/main.go and of labs/06-workflow/main.go.
--   Isolation: labs/05-resource-isolation/main.go. Cgroup is applyCgroups, Process run and child, Main main.
--   Workflow: labs/06-workflow/main.go. Jobs is watchJobs, Run runJob, Stats readJobStats,
--   Setup main and watchJobs around the loop.
--
-- Loops that do not run over a list take fuel. The attribute loop of Netlink takes the number of
-- bytes, which falls in each round; the digits of a number take the number itself.
-- The loops over inotify events take one round more than there are bytes, since each round takes 16 bytes
-- at least.
--
-- Not modelled: the texts of errors and of usage on the terminal, signal delivery and goroutines but
-- those of Signals, Go's runtime, and the modes and flags that system calls are given. Where a system
-- call answers, the answer is a parameter of the model. The XDP program of labs/11-ebpf-xdp is in C.
pub mod Bits
pub mod ByteSize
pub mod Bytes
pub mod Ebpf
pub mod Epoll
pub mod Inotify
pub mod IoUring
pub mod Isolation
pub mod Netlink
pub mod Prelude
pub mod Procfs
pub mod Seccomp
pub mod SharedMemory
pub mod Signals
pub mod Text
pub mod Workflow
