-- ===== src/Lib.antt =====
-- Verification library of hybridnet, a Kubernetes container network (Go).
--
-- hybridnet keeps its addresses in an in-memory manager, pkg/ipam. The controllers refresh it from
-- the Kubernetes API (`Refresh`), and ask it for an address for a pod (`Allocate`), for a certain
-- address (`Assign`), or give one back (`Release`). A network holds a slice of subnets with a cursor;
-- a subnet holds the round-robin slice of its allocatable addresses, and the set of those in use.
--
-- Which file models what:
--   Base             numbers, lists, sets of texts, Go maps (Base/Dict), and the outcome of a Go
--                    method, its error and its panic (Base/Outcome).
--   Net              what the code uses of Go's package net; pkg/utils/ip.go (LastIP).
--   Ipam/Types       pkg/ipam/types/types.go, and the errors of the package.
--   Ipam/IpSlice     pkg/ipam/types/ip.go: IPSlice (NewIPSlice, Add, Count, Next, Current).
--   Ipam/IpSet       pkg/ipam/types/ip.go: IPSet (Has, Add, Update, Delete, Get, Count).
--   Ipam/Usage       pkg/ipam/types/usage.go.
--   Ipam/Subnet      pkg/ipam/types/subnet.go: Subnet (Contains, Overlap, IsAvailable, Usage,
--                    AllocateNext, Assign, Release).
--   Ipam/Validate    pkg/ipam/types/subnet.go: Validate, Canonicalize.
--   Ipam/Sync        pkg/ipam/types/subnet.go: Sync.
--   Ipam/SubnetSlice, Ipam/Classify
--                    pkg/ipam/types/subnet.go: SubnetSlice, and its classify.
--   Ipam/Report      pkg/ipam/types: Usage and DualStackUsage of a slice and of a network.
--   Ipam/Network     pkg/ipam/types/network.go: Network, NetworkSet.
--   Ipam/Allocator   pkg/ipam/allocator/allocator.go.
--   Ipam/Family      pkg/ipam/types/constants.go.
--   Ipam/DualStack   pkg/ipam/allocator/dualstack_allocator.go.
--   Store            pkg/ipam/store: Store/Worker is store.go, Store/Worker/Dual is
--                    dualstack_store.go, over an interface of the Kubernetes client (Store/Client);
--                    Store/Names also holds pkg/controllers/utils/format.go, Store/Types also
--                    pkg/ipam/strategy.
--   Pods             pkg/controllers/networking/pod_controller.go over the allocators and the store, and
--                    of pkg/controllers/utils and pkg/utils what it calls. Pods/Instance is
--                    ipinstance_controller.go.
--   Utils            pkg/utils/slice.go and string.go.
--   Api/Types, Api/Range
--                    pkg/apis/networking/v1: the objects, and utils.go.
--   Api/Transform    pkg/utils/transform/ipam.go, which makes subnets of the address manager.
--   Api/Intersect    pkg/utils/ip.go, Intersect.
--   Api/Quota        pkg/controllers/networking/quota_controller.go.
--   Webhook/Networks, Webhook/Subnets
--                    pkg/webhook/validating/network.go and subnet.go, over what the webhook reads of
--                    the cluster (Webhook/Cluster).
--   Blocks           pkg/daemon/utils/ip_range.go: which blocks of a subnet the node does not route.
--   Runtime          pkg/managerruntime/manager_runtime.go, whose lock is a part of the state.
--   Hub              pkg/managerruntime/daemonhub.go.
--   UuidMutex        pkg/controllers/multicluster/uuid_mutex.go, the registry that says which cluster
--                    owns a UUID; of pkg/controllers/utils/client.go the two reads it starts from.
--                    UuidMutex/Recycle: how pkg/controllers/multicluster/remotecluster_controller.go
--                    recycles the UUIDs of a cluster; killing a daemon is a parameter.
-- The children of a module prove what holds of its definitions.
--
-- State. A Go method with a pointer receiver is a function from the receiver's record to an outcome:
-- success with the new record, an error with the record that the method left behind, or a fault (a
-- panic, or a loop whose rounds are used up). A `*Subnet` is the position of the subnet in its slice,
-- so a change through it is seen by the slice. Each method of an allocator holds the allocator's lock
-- for its whole length, and so is one step. Entries of the using set are values: that the caller of
-- `AllocateNext` and `Assign` shares the record with the set is not modelled. A Go map is an
-- association list; where the code ranges over a map, the model takes the order of the list.
-- Logging and the texts of errors are left out: an error is named by the place that makes it.
--
-- Parameters. `AddressLib` (Net) holds what the repository does not: the text form of addresses of Go's
-- package net, and `Cmp` and `NextIP` of containernetworking/plugins; `RangeLib` (Blocks) adds its `PrevIP`
-- and the last address of a prefix by mikioh/ipaddr. Where a theorem needs their
-- documented behaviour it is a hypothesis (`Counts` in Ipam/Sync/Scan, `Numbers` in Blocks/Family), which
-- the tests meet by a concrete library of IPv4 addresses. The getters of the allocators and the
-- reader of the UUID registry are parameters. A mask is a
-- prefix mask, as ParseCIDR makes it; the `*IPNet` of a subnet is not nil.
-- `strings.ToLower` is exact where its result is compared with ASCII texts; os.Getenv and the feature
-- gate are arguments.
--
-- The cluster. The server is a state that the model does not fix, and the client a record of requests on
-- it; a patch is the body that the source writes, and a request stands for its retries on a conflict.
-- Theorems about the store take as hypotheses that a request that fails changes nothing, that one that
-- succeeds writes the object it names and no other, that a delete marks an object with a finalizer
-- (`Honest` in Store/Cluster), and that the delete of an instance that is there is answered
-- (`DeletesAnswered`); Store/Tests meets them by a small server. A request whose answer is lost is left
-- out. In Pods the manager and the cluster change one after the other within a reconciliation; that
-- subnets are indexed by their names, have network numbers, and hold their available addresses in the
-- text form of the library is a hypothesis there (`IsFit` in Ipam/Network/Records).
--
-- Loops. `AllocateNext` makes one round for each available address, as the source does. The rounds of
-- `GetAvailableSubnet` are the number of subnets, and those of `Sync` the length of the range and one
-- more; the split of a range into blocks makes at most one round for each address. Counts are
-- unbounded, but for the `uint32` fields of `Usage` and the restart count of Runtime, an `int32` kept by its
-- 32 bits, which wrap.
--
-- The locks. In Runtime the lock is a field, and a call that meets a held lock waits and changes nothing; the
-- calls are taken one at a time, so races within a call are left out. A round of the goroutine is one step
-- until it has made and initialized its manager; calls may come before it stores the manager, and before
-- its Start returns. Two ids of one daemon are two daemons in Hub.
--
-- Not modelled: the other controllers and webhooks, the node daemon, the commands, and the rest of
-- pkg/utils, which are mostly I/O over Kubernetes and netlink.
mod Base
pub mod Net
pub mod Ipam
pub mod UuidMutex
pub mod Utils
pub mod Api
pub mod Webhook
pub mod Blocks
pub mod Runtime
pub mod Hub
pub mod Store
pub mod Pods
