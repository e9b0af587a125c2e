-- ===== src/Api.antt =====
-- pkg/apis/v1beta1 (the API types) and the Kubernetes objects that the program reads.
pub mod Errors
pub mod Meta
pub mod Host
pub mod JoinProfile
pub mod NodeClass
pub mod NodeClaim
pub mod JoinHash
