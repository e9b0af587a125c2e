-- ===== src/Api/JoinProfile.antt =====
-- pkg/apis/v1beta1/sshjoinprofile_types.go. A duration is a number of nanoseconds.
use karpenter_provider_ssh.Common.{String, Option}
use karpenter_provider_ssh.Common.Int.{ℤ}

pub record ProfileScripts : Type 0 where
  pub install : String
  pub join : String
  pub leave : String
  pub uninstall : String
  pub reboot : String

pub record ProfileTimeouts : Type 0 where
  pub install : Option ℤ
  pub join : Option ℤ
  pub leave : Option ℤ
  pub reboot : Option ℤ

pub record ProfileSignatures : Type 0 where
  pub install : String
  pub join : String
  pub leave : String
  pub uninstall : String
  pub reboot : String

pub record JoinProfile : Type 0 where
  pub name : String
  pub version : String
  pub scripts : ProfileScripts
  pub timeouts : Option ProfileTimeouts
  pub signatures : Option ProfileSignatures
