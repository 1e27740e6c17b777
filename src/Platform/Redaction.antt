-- ===== src/Platform/Redaction.antt =====
-- Results of `SystemUrlOpener::open_url` of crates/core-platform/src/lib.rs.
use keyro_core.Common.{
  String, ◌≡◌, ◌↔◌, ◌⊎◌, inl, inr, refl, true, List, [], ◌∷◌, Result, ok, err, arith,
}
use keyro_core.Common.Exec
use keyro_core.Common.Exec.{Exec, ◌>>=◌}
use keyro_core.Domain.Urls.{UrlCrate, SafeUrl, redacted_for_log}
use keyro_core.App.Errors.{OpenUrlError}
use keyro_core.Platform.{
  TargetOs, macos, windows, other_os, ExitStatus, ProcessLib, launch, open_url_with_system,
  system_url_opener, check_exit, launch_failed, platform_error_text,
}

module _ {W : Type 0} (process : ProcessLib W) where
  -- The process call of the system, if it has one.
  abbrev pub asked : TargetOs → SafeUrl → List (Exec W String ExitStatus)
  asked macos u = process.status "/usr/bin/open" (u.as_str ∷ []) ∷ []
  asked windows u =
      process.status "rundll32.exe" ("url.dll,FileProtocolHandler" ∷ u.as_str ∷ []) ∷ []
  asked other_os u = []

  -- The process call succeeds.
  abbrev pub IsStarted : List (Exec W String ExitStatus) → W → Type 0
  IsStarted [] w = ⊥
  IsStarted (call ∷ _) w =
      (status : ExitStatus) × ((call w).0 ≡ ok status) × (status.success ≡ true)

  abbrev pub SameAnswer :
      List (Exec W String ExitStatus) → List (Exec W String ExitStatus) → W → Type 0
  SameAnswer (call ∷ _) (call' ∷ _) w = call w ≡ call' w
  SameAnswer _ _ w = Unit

Result-cases : {E A : Type 0} → (r : Result E A) → ((a : A) × (r ≡ ok a)) ⊎ ((e : E) × (r ≡ err e))
Result-cases (ok a) = inl (a, refl)
Result-cases (err e) = inr (e, refl)

module _ ⦃url : UrlCrate⦄ {W : Type 0} (process : ProcessLib W) where
  check :
      (u : SafeUrl) (w : W) (call : Exec W String ExitStatus)
      → ((Exec.map_err {F = OpenUrlError}
            (λ e. record { message = platform_error_text process e })
            (Exec.map_err launch_failed call >>= check_exit process u)
            w).0
          ≡ ok tt)
        ↔ IsStarted process (call ∷ []) w
  unfolding check_exit
  check u w call = (
    λ h. elim (Result-cases (call w).0) [
      | inl (status, e) ↦ (status, e, ground arith)
      | inr (x, e) ↦ absurd (ground arith)
    ],
    λ (status, e, success). ground arith,
  )

  -- A URL is opened exactly when the system has an opener, and its process starts and exits with
  -- success.
  pub open_url_iff :
      (os : TargetOs) (u : SafeUrl) (w : W)
      → (((system_url_opener process os).open_url u w).0 ≡ ok tt)
        ↔ IsStarted process (asked process os u) w
  unfolding system_url_opener open_url_with_system launch
  open_url_iff macos u w = check u w (process.status "/usr/bin/open" (u.as_str ∷ []))
  open_url_iff windows u w =
      check u w (process.status "rundll32.exe" ("url.dll,FileProtocolHandler" ∷ u.as_str ∷ []))
  open_url_iff other_os u w = (λ h. ground arith, λ h. absurd h)

  -- When the processes answer alike, two URLs that are redacted alike are opened alike, the failure
  -- text included: query and fragment are never shown.
  pub open_url-redacted_for_log :
      (os : TargetOs) (u v : SafeUrl) (w : W)
      → SameAnswer process (asked process os u) (asked process os v) w
      → redacted_for_log u ≡ redacted_for_log v
      → (system_url_opener process os).open_url u w ≡ (system_url_opener process os).open_url v w
  unfolding system_url_opener open_url_with_system
  open_url-redacted_for_log macos u v w same redacted = ground arith
  open_url-redacted_for_log windows u v w same redacted = ground arith
  open_url-redacted_for_log other_os u v w same redacted = ground arith
