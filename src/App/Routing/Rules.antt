-- ===== src/App/Routing/Rules.antt =====
-- What a run of `CoreService::route_virtual_control` of crates/core-app/src/lib.rs does to the
-- world, by the answers that it gets.
use keyro_core.Common.{◌≡◌, List, [], ◌∷◌, Option, none, some, Result, ok, err, find}
use keyro_core.Domain.Errors.{DomainError}
use keyro_core.Domain.Ids.{Uuid, ProfileId}
use keyro_core.Domain.Layout.{ControlId}
use keyro_core.Domain.Urls.{SafeUrl}
use keyro_core.Domain.Profiles.{Profile, active, ensure_exactly_one_active}
use keyro_core.Domain.Assignments.{Action, Assignment, first_action}
use keyro_core.App.Errors.{
  AppError, OpenUrlError, domain, app_error_text, assignment_not_found, assignment_has_no_action,
}
use keyro_core.App.Model.{
  CoreEvent, ActionRunId, action_running, action_succeeded, action_failed, open_url_failed,
}

-- A call of a port, with what the port answers.
pub data Effect : Type 0 where
  listed : Result AppError (List Profile) → Effect
  looked_up : ProfileId → ControlId → Result AppError (Option Assignment) → Effect
  drawn : Result AppError Uuid → Effect
  emitted : CoreEvent → Result AppError (Unit {0}) → Effect
  opened : SafeUrl → Result OpenUrlError (Unit {0}) → Effect

-- The run of an assigned URL: it has a run id and is announced before the URL is opened, and then
-- its one closing event says whether the URL was opened. An announcement that the sink refuses ends
-- it. The result is an error if the opening failed or the sink refused an event.
pub data Opening (profile : ProfileId) (control : ControlId) (url : SafeUrl)
    : Result AppError (Unit {0}) → List Effect → Type 0 where
  undrawn : (e : AppError) → Opening profile control url (err e) (drawn (err e) ∷ [])
  unannounced :
      (run : ActionRunId) (e : AppError)
      → Opening profile control url
          (err e)
          (drawn (ok run) ∷ emitted (action_running run profile control) (err e) ∷ [])
  succeeded :
      (run : ActionRunId) (r : Result AppError (Unit {0}))
      → Opening profile control url r (
          drawn (ok run)
          ∷ emitted (action_running run profile control) (ok tt)
          ∷ opened url (ok tt)
          ∷ emitted (action_succeeded run) r
          ∷ [])
  failed :
      (run : ActionRunId) (o : OpenUrlError)
      → Opening profile control url (err (AppError.open_url o)) (
          drawn (ok run)
          ∷ emitted (action_running run profile control) (ok tt)
          ∷ opened url (err o)
          ∷ emitted
              (action_failed run open_url_failed (app_error_text (AppError.open_url o)))
              (ok tt)
          ∷ [])
  unreported :
      (run : ActionRunId) (o : OpenUrlError) (e : AppError)
      → Opening profile control url (err e) (
          drawn (ok run)
          ∷ emitted (action_running run profile control) (ok tt)
          ∷ opened url (err o)
          ∷ emitted
              (action_failed run open_url_failed (app_error_text (AppError.open_url o)))
              (err e)
          ∷ [])

-- The control is looked up in the profile: without an assignment, or with one that has no action,
-- nothing else happens.
pub data Routed (profile : ProfileId) (control : ControlId)
    : Result AppError (Unit {0}) → List Effect → Type 0 where
  lookup_failed :
      (e : AppError) → Routed profile control (err e) (looked_up profile control (err e) ∷ [])
  unassigned :
      Routed profile control (err assignment_not_found) (looked_up profile control (ok none) ∷ [])
  without_action :
      (a : Assignment)
      → first_action a ≡ none
      → Routed profile control
          (err assignment_has_no_action)
          (looked_up profile control (ok (some a)) ∷ [])
  assigned :
      (a : Assignment) (url : SafeUrl) (r : Result AppError (Unit {0})) (effects : List Effect)
      → first_action a ≡ some (Action.open_url url)
      → Opening profile control url r effects
      → Routed profile control r (looked_up profile control (ok (some a)) ∷ effects)

-- The profile is the one active profile; without it nothing else happens.
pub data Run (control : ControlId) : Result AppError (Unit {0}) → List Effect → Type 0 where
  unlisted : (e : AppError) → Run control (err e) (listed (err e) ∷ [])
  inactive :
      (profiles : List Profile) (e : DomainError)
      → ensure_exactly_one_active profiles ≡ err e
      → Run control (err (domain e)) (listed (ok profiles) ∷ [])
  routed :
      (profiles : List Profile) (profile : Profile) (r : Result AppError (Unit {0}))
      (effects : List Effect)
      → ensure_exactly_one_active profiles ≡ ok tt
      → find active profiles ≡ some profile
      → Routed profile.id control r effects
      → Run control r (listed (ok profiles) ∷ effects)
