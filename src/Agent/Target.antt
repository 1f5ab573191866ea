-- ===== src/Agent/Target.antt =====
-- internal/agent/target.go: the execution profile of a device.
use aisummoner.Prelude.{Option, none, some, if◌then◌else◌}
use aisummoner.Prelude.Text.{codes}
use aisummoner.Store.Data.{Bytes, bytes_eq}

pub data Shell : Type 0 where
  posix_user windows_powershell : Shell

pub data PathFlavor : Type 0 where
  posix_paths windows_paths : PathFlavor

pub data CwdPolicy : Type 0 where
  inherit user_profile : CwdPolicy

pub record ExecutionTarget : Type 0 where
  pub platform : Bytes
  pub arch : Bytes
  pub shell : Shell
  pub path_flavor : PathFlavor
  pub default_cwd_policy : CwdPolicy

-- `none` is `ErrInvalidState`.
unfoldable pub execution_target : Bytes → Bytes → Option ExecutionTarget
execution_target platform arch =
    if bytes_eq arch (codes "")
    then none
    else if bytes_eq platform (codes "linux")
    then some (record {
      platform = platform;
      arch = arch;
      shell = posix_user;
      path_flavor = posix_paths;
      default_cwd_policy = inherit;
    })
    else if bytes_eq platform (codes "windows")
    then if bytes_eq arch (codes "amd64")
      then some (record {
        platform = platform;
        arch = arch;
        shell = windows_powershell;
        path_flavor = windows_paths;
        default_cwd_policy = user_profile;
      })
      else none
    else none
