-- ===== src/Platform.antt =====
-- `SystemUrlOpener` of crates/core-platform/src/lib.rs, on each target system. Starting a process is
-- a parameter.
pub mod Redaction
use Prim.Native.String.{◌++◌}
use keyro_core.Common.{String, Bool, ℤ, List, [], ◌∷◌, Option, Result, ok, err, if◌then◌else◌}
use keyro_core.Common.Exec
use keyro_core.Common.Exec.{Exec, pure, raise, ◌>>=◌}
use keyro_core.Domain.Urls.{UrlCrate, SafeUrl, redacted_for_log}
use keyro_core.App.Errors.{OpenUrlError}
use keyro_core.App.Ports.{UrlOpener}

-- `cfg(target_os)`
pub data TargetOs : Type 0 where
  macos windows other_os : TargetOs

-- `std::process::ExitStatus`
pub record ExitStatus : Type 0 where
  pub success : Bool
  pub code : Option ℤ

-- `Command::new(program).args(args).status()`, its error by its text, and `Debug` for an exit code.
pub record ProcessLib (W : Type 0) : Type 0 where
  pub status : String → List String → Exec W String ExitStatus
  pub debug_code : Option ℤ → String

pub data PlatformError : Type 0 where
  launch_failed : String → PlatformError
  launch_exited : Option ℤ → String → PlatformError
  unsupported_os : String → PlatformError

module _ {W : Type 0} (process : ProcessLib W) where
  unfoldable pub platform_error_text : PlatformError → String
  platform_error_text (launch_failed error) = "failed to launch URL opener: " ++ error
  platform_error_text (launch_exited code url) =
      "URL opener exited with code " ++ process.debug_code code ++ " for " ++ url
  platform_error_text (unsupported_os url) = "URL opener is not supported on this OS for " ++ url

  -- The opener of a supported system.
  unfoldable pub launch : String → List String → Exec W PlatformError ExitStatus
  launch program args = Exec.map_err launch_failed (process.status program args)

module _ ⦃url : UrlCrate⦄ {W : Type 0} (process : ProcessLib W) where
  unfoldable pub check_exit : SafeUrl → ExitStatus → Exec W PlatformError (Unit {0})
  check_exit u status =
      if status.success then pure tt else raise (launch_exited status.code (redacted_for_log u))

  unfoldable pub open_url_with_system : TargetOs → SafeUrl → Exec W PlatformError (Unit {0})
  unfolding launch check_exit
  open_url_with_system macos u = do
    status ← launch process "/usr/bin/open" (u.as_str ∷ [])
    check_exit u status
  open_url_with_system windows u = do
    status ← launch process "rundll32.exe" ("url.dll,FileProtocolHandler" ∷ u.as_str ∷ [])
    check_exit u status
  open_url_with_system other_os u = raise (unsupported_os (redacted_for_log u))

  -- `impl UrlOpener for SystemUrlOpener`
  unfoldable pub system_url_opener : TargetOs → UrlOpener W
  unfolding open_url_with_system platform_error_text
  system_url_opener os = record {
    open_url = λ u.
        Exec.map_err (λ e. record { message = platform_error_text process e })
          (open_url_with_system os u);
  }
