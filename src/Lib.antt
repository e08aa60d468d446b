-- ===== src/Lib.antt =====
-- sunwalker-box runs untrusted programs in a sandbox on Linux. A controller process resolves paths
-- and mounts, a reaper is PID 1 of the box, a manager runs one program at a time under ptrace; they
-- talk through the crate `multiprocessing`, which sends Rust objects over sockets. This library models
-- the parts below as functions and proves what is listed at the end.
--
-- Serde (multiprocessing/src/serde.rs) is the serializer and the deserializer, as records of bytes,
-- handles and shared objects; `none` is a panic. Its children are the implementations of `Object` in
-- multiprocessing/src/builtins.rs: Words, Builtins, Sequences, Text, Handles, Shared, and the code
-- that `derive(Object)` generates (Derive; multiprocessing/multiprocessing-derive/src/lib.rs) for
-- structs and enums of any shape, a message within a message (Delayed;
-- multiprocessing/src/delayed.rs), and boxed trait objects (Traits), which cross as the distance of
-- a vtable: an Image is where a process has them, and type_at of it is the dynamic type.
-- `Transmissible` (Serde/Object) is the law that they fill: what is written, and that it is read back.
-- Ipc (multiprocessing/src/platform/unix/ipc.rs) is `send_on_fd` and `recv_on_fd` for any object; the
-- socket is a parameter, and IsSeqpacket is what it promises. The sending loop has as much fuel as
-- there are bytes and descriptors, which is enough.
--
-- Spawn (multiprocessing/src/fns.rs, and `entrypoint` of multiprocessing-derive/src/lib.rs) is the
-- closures that bind arguments to a function, for a Program of any functions and types;
-- Spawn/Process (multiprocessing/src/platform/unix/subprocess.rs) is `spawn`, what the child does
-- before it runs the program, and `join`; Spawn/Main (multiprocessing/src/imp.rs) is `main` in the
-- child. The clone is a call that is answered with a pid: parent and child are two functions, joined
-- by the packets that one sends and the other finds in its socket.
--
-- Tracing (src/linux/tracing.rs) is the operations of `TracedProcess`. A kernel answers each call by
-- the history of all the calls before it. The walks over a stack of the traced process have fuel, as
-- that stack may have no end.
-- Running (src/linux/running.rs) is `SingleRun`: options, limits and verdict (Running), the events
-- (Running/Events), the loop and the clean-up (Running/Loop), with a host that answers what is waited
-- for and measured. The loop has fuel, as a program may run for ever; what is proved of a loop that
-- returns is proved beside what is proved of each of its steps. A pid, a register and a time are
-- natural numbers, with the wrap-around of 64 bits written out; a time is in nanoseconds.
-- Runner (src/linux/running.rs, with src/linux/userns.rs and two functions of src/linux/rootfs.rs) is
-- `Runner::new`, by which the manager closes the box around itself, and the child that maps the ids.
-- Running/Worker is `executor_worker`, what the child does before it becomes the program, with
-- `drop_privileges` of src/linux/userns.rs and `disable_rdtsc` of src/linux/timens.rs.
--
-- Rootfs (src/linux/rootfs.rs) is `resolve_abs`, on 256 levels of links as in the source, which
-- mounts `reset` undoes (Rootfs/Mounts), its calls (Rootfs/Reset), and `create_rootfs`
-- (Rootfs/Create). The file system answers `readlink` by a function, so it stands still while a path
-- is resolved. Sandbox (src/linux/sandbox.rs) is the working area and the copy of /dev.
-- Timens (src/linux/timens.rs) is the offsets of the clocks.
-- Controller (src/linux/controller.rs) is `ensure_allowed_to_modify`, and Controller/Machine is every
-- other operation of the controller, over a world that records the calls in the order they are made;
-- a host answers each call, and says when the child has ended, which ends the process.
-- Entry (src/linux/entry.rs) is the reading of the command `cat`, Entry/Commands is all the commands
-- and what each calls of the controller, and Entry/Serve is the loop that reads a line, executes it
-- and prints the answer. The parsing and printing of JSON and the change to lower case are
-- parameters; an error of reading a file inside `cat`, and of writing to stdout, is left out.
-- Cgroups (src/linux/cgroups.rs) is the parsers of the statistics, the removal of a cgroup
-- (Cgroups/Removal), whose six rounds are enough for the five retries, and the making of cgroups,
-- their limits and their measures (Cgroups/Setup), their end by destroy or drop (Cgroups/Owned);
-- the depth of the tree of cgroups is fuel, a random name is an argument, and a printed number has
-- 20 digits at most, enough for 64 bits.
-- Manager (src/linux/manager.rs) is the read-only remount and the verdict in a reply, and
-- Manager/Exchange is the messages between controller and manager as a step relation.
-- SysvIpc (src/linux/ipc.rs) is the reset of the IPC namespace, and SysvIpc/NextId its single calls
-- and the ids it gives next.
-- Reaper (src/linux/reaper.rs) is the loop over signals, on fuel since signals may come for ever, and
-- its commands; Reaper/Setup is what `reaper` does before the loop, and the whole process. Procs
-- (src/linux/procs.rs) is `mount_procfs` and the two calls for the pid namespace.
--
-- Common holds the shared names, tests and lists over native numbers, and the actions that keep a
-- state and may fail (Common/Exec), with the rules by which an action is shown never to panic
-- (Common/Exec/Safe), to keep an invariant (Common/Exec/Triples) or to make the calls of a list
-- (Common/Exec/Calls). Witnesses has the theorems at concrete inputs.
--
-- Not modelled: the checks and the namespaces at the start (the rest of src/linux/sandbox.rs), which
-- are system calls in a row; the opening of the standard streams of a run; the parsing of JSON; how
-- the macro `entrypoint` parses a function, and the macro `main`; what is undefined, such as a vtable's
-- distance that no type has; the asynchronous transport and the Windows platform; the seccomp filter
-- and the wrapper executable, which the build makes.
pub mod Common
pub mod Serde
pub mod Ipc
pub mod Spawn
pub mod Runner
pub mod Tracing
pub mod Running
pub mod Rootfs
pub mod Sandbox
pub mod Timens
pub mod Controller
pub mod Cgroups
pub mod Manager
pub mod Entry
pub mod SysvIpc
pub mod Reaper
pub mod Procs
pub mod Witnesses
