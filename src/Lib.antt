-- ===== src/Lib.antt =====
-- Verification of karpenter-provider-ssh: a Karpenter provider that claims hosts of a fixed pool,
-- joins them to the cluster over SSH, and gives them back.
--
-- The program's parts and their modules:
--   * Api (pkg/apis/v1beta1): SSHHost, SSHJoinProfile and SSHNodeClass, the fields of karpenter's
--     NodeClaim and of Kubernetes objects that the program reads, and its errors. `Error` keeps what
--     the program looks for in an error chain: the API reason, the exit status, `configError`.
--   * Kube: the calls of the API server, a record that every operation takes as a parameter, over a
--     world that holds the cluster and whatever acts on it between two calls. A function with a
--     *SSHHost argument acts on a `Session`: the host in hand and the world. Kube/Lock states what
--     the server documents of resourceVersions, which some theorems have as a hypothesis.
--   * Pool (pkg/providers/host/host.go): the host pool. `claim`, `release`, `set_status` and the
--     lookups are Claim, Release, setStatus and ByProviderID, ByClaim, Available; Pool/Interface is
--     the Provider interface that the instance provider takes.
--   * Profile (internal/profile/profile.go): scripts, their environment and redaction; Profile/Render is
--     Render and Validate.
--   * Sshexec (internal/sshexec): Wire and Signature are sshsig.go, Envelope is envelope.go, Script,
--     HostKey, Runner and Dial are sshexec.go: Dial is connect, runSession, Run and RunShim over the
--     calls of the SSH client, whose errors ExitErrors of Dial/Sent describes.
--   * Instance (pkg/providers/instance): Phases is leave.go with runPhase and runVerifiedPhase of
--     instance.go, and Phases/OverSsh a phase over the SSH calls of Sshexec/Dial; Join is `join` and
--     the token hygiene; Labels the labels and taints of a join; Create is Create; Lifecycle is Delete,
--     Reboot, Get and List.
--   * Probe (pkg/controllers/hostprobe.go): Facts is the probe's output and the Ready condition, Held
--     the branch for claimed hosts, Guard the zombie guard, Reconcile the whole reconcile, Capacity the
--     warning about a host with less than its spec promises; Stores is what becomes of a status patch.
--   * Gate (pkg/controllers/startuptaintgate.go): the startup taints that a node class opens, and Watch
--     what wakes it.
--   * Class (pkg/controllers/nodeclass.go): the Ready condition and the finalizer of a node class.
--   * InstanceTypes (pkg/providers/instancetype/instancetype.go): the classes of the hosts that a node
--     class selects, and what they offer.
--   * CloudProvider (pkg/cloudprovider): karpenter's CloudProvider over the two providers; Api/JoinHash
--     is JoinHash of the node class, which Create stamps and IsDrifted compares.
--   * HostStates: no code, but the state machine of docs/architecture.md, as the steps that the status
--     of a host may take, and the proof that the reconciler takes no others, nor the host provider on a
--     host as the server has stored it.
--     HostStates/Server is what the proof relies on: the API server keeps an invariant of the world
--     under each write that is a step, and hands out the hosts that it stores.
--   * Metrics (pkg/metrics/metrics.go): the gauge of the hosts by state and class.
--   * Bootstrap (pkg/providers/bootstrap/bootstrap.go): tokens and what a kubelet knows of the cluster.
--   * Common and Exec: lists, texts, numbers, sorting, and actions with errors. What an action did
--     before an error stays done. Example and Tests apply the theorems to one host.
--
-- The instance provider and the reconciler share the hosts in the API server. Both write under a
-- resourceVersion, so one of two racing writers loses; the provider's setters also compare the claim.
--
-- Conventions. Kubernetes strings are texts, what goes over a wire is a list of bytes. A Go map is
-- the list of its entries. Times and durations are nanoseconds, quantities nano units, prices whole
-- numbers of the smallest unit they are written in. Messages quote with %q where the model writes
-- the text as it is. Loops over lists are by recursion. `retry_on_conflict` and `adopt_polling`
-- recurse on the number of further calls that retry.RetryOnConflict and the poll make, which are
-- parameters (48 polls of 5 seconds follow the first within the 4 minutes of adoptProviderID).
--
-- Parameters, since they are not part of the repository: the API server, text/template, PEM, the
-- hashes and the keys of golang.org/x/crypto/ssh, the SSH client, the clock, the floating point
-- arithmetic of prices, the scheduling requirements and resource arithmetic of karpenter
-- core. Label selectors are opaque.
--
-- Not modelled: logging, the histograms, counters and events, which nothing reads back; process
-- wiring; generated code; the registration of the watches.
pub mod Common
pub mod Exec
pub mod Api
pub mod Kube
pub mod Pool
pub mod Profile
pub mod Sshexec
pub mod Instance
pub mod Probe
pub mod Gate
pub mod Class
pub mod HostStates
pub mod Metrics
pub mod InstanceTypes
pub mod CloudProvider
pub mod Bootstrap
pub mod Example
pub mod Tests
