-- ===== src/Lib.antt =====
-- The FlatNetwork operator gives pods addresses of its own: a FlatNetworkSubnet names a network, its
-- ranges and what of them is used, and a FlatNetworkIP stands for the addresses of one pod. The
-- controller of pods makes the FlatNetworkIP of a pod; that of FlatNetworkIPs gives it addresses under
-- the lock of its subnet; that of subnets checks subnets and their used addresses; that of workloads
-- reserves the addresses that workloads ask for. The admission webhook checks subnets and the
-- workloads. The controllers of services and ingresses make and mark the services of such pods. The
-- CNI plugin makes the interface of a pod with the addresses of its FlatNetworkIP, and the routes. All
-- of them rest on arithmetic of addresses and ranges.
--
--   Prelude            numbers, lists, integers and Boolean tests that the other files share
--   Net                what the code uses of Go's net package: addresses as byte lists, networks,
--                      ParseIP and ParseCIDR (Net.Parse); addresses as numbers (Net.Value)
--   Slices             what the code uses of Go's slices package: Sort and BinarySearch
--   Types              pkg/apis/flatnetwork.pandaria.io/v1/types.go, and the errors
--   Maps               Go maps as association lists; Laws and Labels hold proofs
--   Objects            what the code reads and writes of workloads, services and network
--                      attachments
--   Ipcalc             pkg/ipcalc/ipcalc.go: IPIncrease to IsAvailableIP here, GetAvailableIP in
--                      Ipcalc.Search, the checks for conflicts in Ipcalc.Conflict; the children
--                      Increase, Canonical, Add, Remove, Laws, Refinement, Search.Range, Search.Free,
--                      Search.Network and Disjoint hold proofs
--   Cluster            the API server, the caches and queues as the controllers meet them
--   Cni                pkg/cni: the modes and flags of macvlan and ipvlan in Macvlan and Ipvlan, and
--                      their Create in Create; what is called outside the repository in Kernel;
--                      common/common.go in Addresses; route/route.go in Route and the other files of
--                      route in HostRoute; types and mergeIPAMConfig in Config; the commands Add in
--                      Add and Attach, Del in Del and Check in Check, on what Command says of their
--                      arguments; Cleanup, Unwind, Shown, Report, Removal, Validate, Ensure,
--                      DefaultRoute and Gateway hold proofs
--   Common             pkg/common/common.go: subnets in Common.Subnet, annotations of pods in
--                      Common.Annotation; Common.Verdicts holds proofs
--   FlatNetworkIp      pkg/controller/flatnetworkip: allocateIP, allocateMAC and the edits of a
--                      subnet's status in Allocate, handleIP with onIPCreate, onIPPending and
--                      onIPUpdate in Handlers, handleIPRemove in Remove; Choice, Mac, Invariant,
--                      Recorded and Waited hold proofs
--   FlatNetworkSubnet  pkg/controller/flatnetworksubnet: the used addresses in Used, handleSubnet and
--                      handleSubnetRemove in Handlers, handleError in Failure; Collected, Duplicates
--                      and SelfCheck hold proofs
--   Webhook            pkg/admission/webhook: workload.go in Workload, subnet.go in Subnet; Checks
--                      holds proofs
--   Wrangler           IPAllocateLock, its unlock and IsIPAllocating of pkg/controller/wrangler/utils.go
--                      as steps of threads in Lock; Mutex, Exclusion and Safety hold proofs
--   Workload           pkg/controller/workload in Handlers; Reserved and Settled hold proofs
--   Pod                pkg/controller/pod: utils.go and workload.go in NewIp, pod.go in Handlers; Settled
--                      and Ensured hold proofs
--   Service            pkg/controller/service: the tests by which services are told apart, and those of
--                      pkg/utils/utils.go, in Kinds, newFlatNetworkService and
--                      flatNetworkServiceUpdated in Expected, the handlers in Handlers;
--                      pkg/controller/ingress in Ingress; Settled holds proofs
--   Endpoints          pkg/common/endpoints.go: the selections of a service in Selection, the subsets,
--                      endpoints and address type in Resources; what their controllers call in
--                      Server, pkg/controller/endpoints in Sync and pkg/controller/endpointslice in
--                      SyncSlice; Printed, Families, Sources and Kept hold proofs
--   Namespace          pkg/controller/namespace
--   Migrate            pkg/migrate: updateAnnotation and removeV1Labels of annotation_maps.go and
--                      newFlatNetworkSubnet of subnet.go; Removed holds proofs
--   Test               runs and theorems at concrete inputs
--
-- A string is the list of its bytes, an address a list of 16 or 4 bytes (any other list is what Go
-- calls an invalid address, and the empty one nil). A Go map is an association list. Ranges are values:
-- that AddIPToRange writes into the slice that it is given is not modelled. A list of ranges is
-- canonical where its ranges have 16-byte ends and are ascending, non-empty, and neither touch nor
-- border on one another.
--
-- The handlers are functions on histories of calls. A cluster answers each call by the history of all
-- calls before it, so that its caches may be stale and its updates may conflict; an error that is used
-- where Go finds nil panics. RetryOnConflict, IP.String, IPNet.String and all answers are
-- parameters, and so are intstr, JSON, the environment, FindPort, RepackSubsets and the annotations of Multus; the
-- record Retries says what is relied on of RetryOnConflict, that its result is the result of its
-- last attempt.
--
-- Loops are structural recursion, but for these. The search of a range takes as many rounds as the
-- range has addresses and one more; it is enough where the range does not end at the last address. The
-- search of a network takes the number of all addresses and two more, which is more than any network
-- has. BinarySearch halves its distance, so the length of the slice and one more is enough. The pages
-- of a list are as many as the server says: the loop takes fuel and says when it has run out.
-- handleIPRemove counts 60 rounds.
--
-- The CNI plugin is a function on histories too: a kernel answers each call to netlink, to the IPAM plugin
-- and to the API server by the history of all calls before it. The body of Add returns the stage at which
-- it failed, and with it whether Go's variable err is set there, which is what its deferred functions
-- read. The codecs of the CNI types, the retries, the order of a loop over a map and the object that
-- comes beside an error are parameters. The controllers of endpoints meet a server in the same way.
--
-- In the model of the lock a step is one access to shared memory: the Lock and Unlock of a mutex, and the
-- setting and clearing of the flag. A subnet is a number there, and the handlers only note that they
-- lock, unlock and ask.
--
-- Not modelled: logging, the text of errors and the registration of handlers, which no result depends
-- on; how long a request to look again waits; the JSON and HTTP of the webhook, which libraries do;
-- the loops of the migration tool over resources; of the CNI plugin the client, PrintRoutes and main; and generated
-- clients.
pub mod Prelude
pub mod Net
pub mod Slices
pub mod Types
pub mod Maps
pub mod Objects
pub mod Ipcalc
pub mod Cluster
pub mod Cni
pub mod Common
pub mod FlatNetworkIp
pub mod FlatNetworkSubnet
pub mod Webhook
pub mod Wrangler
pub mod Workload
pub mod Pod
pub mod Service
pub mod Endpoints
pub mod Namespace
pub mod Migrate
pub mod Test
