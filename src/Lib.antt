-- ===== src/Lib.antt =====
-- ZVM Extra: the daemon that adds device passthrough, TPMs, console passwords, snapshot schedules
-- and an ordered autostart to the virtual machines of a host.
--
-- The program. Each feature keeps what the operator asked for in a store, a map behind a JSON file
-- (internal/usb/store.go, internal/pci/store.go, internal/tpm/store.go, internal/vnc/store.go,
-- internal/schedule/schedule.go, internal/autostart/store.go). Since another tool rewrites the
-- definitions of the domains, a reconciler per feature goes through its store again and again,
-- asks the virsh client whether the domain still has what is pinned, and repairs it if not. The
-- client edits the XML of a domain as text (internal/virsh/vnc.go, internal/virsh/tpm.go). The HTTP
-- handlers (internal/handlers/handlers.go) check a request, call the client, and change the stores;
-- they also create snapshots, mount shares of file servers (internal/mounts/mounts.go) and start
-- backups (internal/backup/backup.go). At its start the daemon registers its route with the gateway.
--
-- The files.
--   Base, Bytes: numbers, lists, results; text as the list of its bytes, with the functions of Go's
--     `strings` that the code calls.
--   Dict, FileStore: the map and the file of a store. The stores hold one copy each of the same
--     code (`load`, `saveLocked`), so it is written once, with the entry and its key as parameters,
--     and the modules of the stores instantiate it. FileStore/Reload: what survives a restart.
--   ForEach, Reconciler: the loop of the reconcilers and the round that three of them share.
--   Usb, Usb/Lsusb: internal/usb/usb.go. Usb/Store: internal/usb/store.go.
--   Pci, Pci/Address: internal/pci/pci.go. Pci/Store: internal/pci/store.go.
--   Tpm: internal/tpm/store.go.
--   Vnc: internal/vnc/vnc.go. Vnc/Store: internal/vnc/store.go.
--   Virsh/Graphics, Virsh/Listen, Virsh/Client: internal/virsh/vnc.go, that is the password, the
--     address and port, and the calls of the client that use them.
--   Virsh/FileStem: `fileStem` of internal/virsh/virsh.go.
--   Schedule: internal/schedule/schedule.go; Snapshots has the tick, Order sort.Strings, Clock the
--     due test, Edit the edits, Prune the pruning.
--   Autostart: internal/autostart/store.go; Calls has the calls as a trace between worlds, Order the
--     order of the log of a boot, Boot the calls of a boot, Watch those of the watchdog.
--   Storage: internal/storage/storage.go. Settings: internal/settings/store.go.
--   Action, Paths: a call that changes the world and may fail; path/filepath.
--   Virsh/Tables, Virsh/Commands, Virsh/Hostdevs: the rest of internal/virsh/virsh.go, that is what it
--     reads out of the text of virsh, the commands, and the devices of a domain. Tables/Columns and
--     Commands/Overlays are about rows and the files of an external snapshot, Hostdevs/Hex,
--     Parts and Found about addresses and ids.
--   Virsh/TpmXml: internal/virsh/tpm.go; Search, Edit and Restore are about finding, adding and
--     removing the element.
--   Mounts, Mounts/Commands: internal/mounts/mounts.go; Safe is about the entries, Runs about the
--     mounts.
--   Backup: internal/backup/backup.go; Kept is about how many jobs it keeps. Gateway: internal/gateway/gateway.go. Units:
--     internal/watchdog/watchdog.go. Command: internal/config/config.go and the root handler of
--     cmd/zima-vm-extras/main.go.
--   Handlers: internal/handlers/handlers.go. Names has its checks of names, Server its state and what
--     the handlers share; Devices, Consoles, Snapshots, Metrics, Machines and Networks have the
--     handlers. A handler is a function of the stores of the server and of the world, and ends
--     with a code and what is encoded, or with an error. Consoles/Exposed and Snapshots/Guarded are about
--     the checks of requests, Names/Listing about names in the listing of virsh.
--   Examples: runs at concrete inputs.
--
-- How the model corresponds to the code. A Go function has the same name in snake case. A store is
-- a record of its map and its files; an operation takes the store and what its system calls return
-- and gives a result and the next store. The controller of a reconciler is a record of functions
-- over a world W of domains: a query reads the world, a command gives an error or not and the next
-- world. Lines of the log are data. What libvirt is relied on for is a record `IsLawful`, for
-- what requests may pin and, for consoles, in the worlds that its field `Sane` takes in; what
-- encoding/json is relied on for is `ReadsBack`. An int of Go is an integer, and wraps around where
-- an interval is turned into nanoseconds. The order in which `range` goes through a map is the order
-- of the association list, and no theorem depends on it.
--
-- Fuel. The loop of `vncOpenTag` has fuel: one round more than the document has bytes, which
-- is enough since each round passes at least one byte; the loop that removes <tpm> has as many rounds
-- as the document has bytes, and each removes at least four; `itoa` has one step for each of the at
-- most 20 digits of an int. The two loops of the gateway have as many rounds as the daemon
-- lets them run.
--
-- The calls of the system. What a part calls is a record of functions over a world W: `Runner` and
-- `Virsh` for virsh, a `Host` for files and processes of the mounts, the backups and the units, `Http`
-- for the gateway, and `Env` for all that the handlers call.
--
-- Not modelled. The locks (each operation is one critical section), the timers that repeat a pass
-- or a tick, the processes behind virsh, lsusb and lspci, the permission bits of files. ToLower and
-- TrimSpace treat ASCII alone, and loops over runes go by bytes. The logger is taken to be given.
-- The table of routes, the JSON of requests and answers, the health answer, the steps that a running
-- backup shows and the wiring of the daemon are left out.
pub mod Action
pub mod Autostart
pub mod Backup
pub mod Base
pub mod Bytes
pub mod Command
pub mod Dict
pub mod Examples
pub mod FileStore
pub mod ForEach
pub mod Gateway
pub mod Handlers
pub mod Mounts
pub mod Paths
pub mod Pci
pub mod Reconciler
pub mod Schedule
pub mod Settings
pub mod Storage
pub mod Tpm
pub mod Units
pub mod Usb
pub mod Virsh
pub mod Vnc
