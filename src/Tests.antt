-- ===== src/Tests.antt =====
-- The theorems at concrete inputs.
pub mod Pool
pub mod Profile
pub mod Gate
pub mod Bootstrap
pub mod Class
pub mod InstanceTypes
pub mod Sshexec
pub mod Instance
pub mod Probe
pub mod HostStates
pub mod Metrics
pub mod Dial
pub mod CloudProvider
