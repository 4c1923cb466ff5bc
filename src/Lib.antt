-- ===== src/Lib.antt =====
-- A model of parts of the Docker 1.2.0 daemon, docker1.2.0-master, with theorems on them.
--
-- The daemon's network driver gives each container an address and maps ports of the host to it: the
-- port mapper asks the port allocator for a port, and gives it back when the mapping fails. A
-- container's state is written by its monitor, which restarts it by its policy, and is waited on by
-- callers of the API. The output of a container is multiplexed into one connection. The configuration
-- of a container is merged with its image's, whose port specifications are parsed on the way; an image
-- is found by a name and a tag in the tag store. The event log tells listeners what happens. All of it
-- is reached by jobs of the engine, whose environment carries their parameters; the bridge driver's jobs
-- call the address allocator and the port mapper. What a container changed in its file system is the
-- difference of two trees.
--
-- Network/PortAllocator models daemon/networkdriver/portallocator/portallocator.go (RequestPort,
-- ReleasePort, findPort), Network/PortMapper models daemon/networkdriver/portmapper/mapper.go (Map,
-- Unmap) with the Forward of pkg/iptables/iptables.go, whose Raw and Exists are in Network/Iptables,
-- Network/Ip models daemon/networkdriver/utils.go, and Network/IpAllocator models
-- daemon/networkdriver/ipallocator/allocator.go (RequestIP, ReleaseIP, getNextIP). Daemon/State models
-- daemon/state.go and Daemon/Monitor daemon/monitor.go. Utils/StdCopy models utils/stdcopy.go, Parsers
-- models pkg/parsers/parsers.go, Nat models nat/nat.go, Runconfig models runconfig/merge.go and
-- runconfig/compare.go, with NetworkMode of runconfig/hostconfig.go, Graph/Tags models graph/tags.go,
-- Events models events/events.go, Version models pkg/version/version.go and the comparison of
-- pkg/parsers/kernel/kernel.go, and Opts models the lists of opts/opts.go. Engine/Env models
-- engine/env.go (Get, Set, Map, MultiMap, and in Json what goes through JSON), Engine/Registry
-- engine/engine.go (Register, Job, ParseJob), Engine/Job the Run of engine/job.go, Engine/Shutdown its
-- interleaving with Shutdown, Engine/Streams engine/streams.go and Engine/Table engine/table.go.
-- Network/Bridge models daemon/networkdriver/bridge/driver.go (Allocate, Release, AllocatePort), with the
-- creation of the bridge in Setup and the firewall in Rules. Archive/Changes models the trees of
-- archive/changes.go (addChanges, LookUp) and Archive/Aufs its layers with whiteouts. TruncIndex models
-- pkg/truncindex/truncindex.go, BroadcastWriter pkg/broadcastwriter/broadcastwriter.go, and Links
-- links/links.go with nat/sort.go.
-- DeviceSet models the devices of daemon/graphdriver/devmapper/deviceset.go, with their mounts in
-- DeviceSet/MountTable, DeviceSet/Match and DeviceSet/Mounts, and setupBaseImage in
-- DeviceSet/BaseImage, and DeviceSet/Driver models daemon/graphdriver/devmapper/driver.go.
-- AufsDriver models daemon/graphdriver/aufs/aufs.go with its dirs.go. Base holds what they share:
-- sets and maps of Go as lists, byte strings, decimal numbers.
--
-- A method under a lock is one function from the state before to the state after. A failure is a value
-- of a result type, and a panic is `none`. A channel is a number, and closing it adds it to a list.
-- Time, the answers of the kernel and of commands, and the bytes that a reader gives are arguments.
-- Go's int32 is a bit pattern below 2 ^ 32; a Go string is a list of bytes.
--
-- The search for a port may go round for ever, so it has fuel: its range has 16,383 ports, and that
-- much fuel is enough when the last port is past the first of the range. The search for an address has
-- the bound of the source. StdCopy has fuel for its rounds and reads: one more than the bytes, reads
-- and frames of the connection is enough. The monitor's rounds are a list that the outside gives, and so
-- are the steps of jobs and a shutdown.
--
-- Not modelled are the HTTP interface and its client, the builder, the execution drivers, the other
-- storage drivers, the registry, tar streams, mounts, and the command line, which are mostly input and output, and the
-- order in which Go walks a map, which is the order of the list.
pub mod Base
pub mod Network
pub mod Daemon
pub mod Utils
pub mod Parsers
pub mod Nat
pub mod Runconfig
pub mod Graph
pub mod Events
pub mod Version
pub mod Opts
pub mod Engine
pub mod Archive
pub mod BroadcastWriter
pub mod TruncIndex
pub mod Links
pub mod DeviceSet
pub mod AufsDriver
