-- ===== src/Sshexec.antt =====
-- internal/sshexec: signed envelopes, their signatures, and the scripts that run over SSH.
pub mod Wire
pub mod Signature
pub mod Envelope
pub mod Script
pub mod Runner
pub mod Dial
pub mod HostKey
