-- ===== src/Pod.antt =====
-- pkg/controller/pod: the FlatNetworkIP that is made for a pod, and the labels of the pod.
pub mod NewIp
pub mod Handlers
pub mod Settled
pub mod Ensured
