-- ===== src/App/Routing/Order.antt =====
-- The order of the calls in `CoreService::route_virtual_control`, of crates/core-app/src/lib.rs.
use keyro_core.Common.{
  ◌≡◌, refl, arith, List, [], ◌∷◌, ◌++◌, Option, none, some, Result, ok, err, ok_or, map_err, find,
  find_of_count,
}
use keyro_core.Common.Exec
use keyro_core.Common.Exec.{Exec, lift, ◌>>=◌, ◌>>◌}
use keyro_core.Common.Effects.{
  Records, Emits, Emits-bind, Emits-Records, Emits-last, Emits-pure, Emits-attempt,
}
use keyro_core.Domain.Errors.{DomainError}
use keyro_core.Domain.Ids.{ProfileId}
use keyro_core.Domain.Layout.{ControlId}
use keyro_core.Domain.Urls.{SafeUrl}
use keyro_core.Domain.Profiles.{Profile, active, ensure_exactly_one_active}
use keyro_core.Domain.Assignments.{Action, Assignment, first_action}
use keyro_core.App.Errors.{
  AppError, OpenUrlError, app_error_text, active_profile_missing, assignment_not_found,
  assignment_has_no_action,
}
use keyro_core.App.Model.{
  CoreEvent, ActionRunId, action_running, action_succeeded, action_failed, open_url_failed,
}
use keyro_core.App.Service.{
  CoreService, ensure_active, active_profile, run_action, report, run_assignment,
  route_virtual_control,
}
use keyro_core.App.Routing.Rules.{
  Effect, listed, looked_up, drawn, emitted, opened, Opening, Routed, Run,
}

module _ {W : Type 0} (service : CoreService W) (trace : W → List Effect) where
  open service use {repository, url_opener, event_sink, uuids}

  -- What the ports of a service do to its trace: one entry for each call, with the answer.
  pub record IsTraced : Type 0 where
    pub lists : Records trace listed repository.list_profiles
    pub finds :
        (p : ProfileId) (c : ControlId)
        → Records trace (looked_up p c) (repository.find_assignment p c)
    pub draws : Records trace drawn uuids.new_v4
    pub emits : (e : CoreEvent) → Records trace (emitted e) (event_sink.emit e)
    pub opens : (u : SafeUrl) → Records trace (opened u) (url_opener.open_url u)

module _ {W : Type 0} (service : CoreService W) (trace : W → List Effect)
    (ports : IsTraced service trace) where
  open service use {repository, url_opener, event_sink, uuids}

  -- What an opening adds, by the result of the action.
  data Opens (u : SafeUrl) : Result AppError (Unit {0}) → List Effect → Type 0 where
    went : Opens u (ok tt) (opened u (ok tt) ∷ [])
    stayed : (o : OpenUrlError) → Opens u (err (AppError.open_url o)) (opened u (err o) ∷ [])

  run_action-Opens : (u : SafeUrl) → Emits trace (Opens u) (run_action service (Action.open_url u))
  unfolding run_action
  run_action-Opens u = record {
    at = λ w. go (url_opener.open_url u w).0 (url_opener.open_url u w).1 w ((ports.opens u).at w);
  }
    where
      go :
          (r : Result OpenUrlError (Unit {0})) (w' w : W)
          → trace w' ≡ trace w ++ opened u r ∷ []
          → let (r', w'') = Exec.map_err AppError.open_url (lift r) w' in
            (added : List Effect) × (trace w'' ≡ trace w ++ added) × Opens u r' added
      go (ok _) w' w e = (opened u (ok tt) ∷ [], e, went)
      go (err o) w' w e = (opened u (err o) ∷ [], e, stayed o)

  module _ (control : ControlId) (profile : ProfileId) (u : SafeUrl) (run : ActionRunId) where
    -- The opening and the report, after the announcement.
    abbrev Closes : Result AppError (Unit {0}) → List Effect → Type 0
    Closes r effects =
        Opening profile control u r
          (drawn (ok run) ∷ emitted (action_running run profile control) (ok tt) ∷ effects)

    report-Closes :
        (r : Result AppError (Unit {0})) (xs : List Effect)
        → Opens u r xs
        → Emits trace (λ r' ys. Closes r' (xs ++ ys)) (report service run r)
    unfolding report
    report-Closes (ok _) _ went =
        Emits-last trace _ (emitted (action_succeeded run)) _ (ports.emits _)
          (λ r. Opening.succeeded run r)
    report-Closes (err _) _ (stayed o) =
        Emits-Records trace _
          (emitted (action_failed run open_url_failed (app_error_text (AppError.open_url o)))) _ _
          (ports.emits _) (λ e. Opening.unreported run o e)
          (λ _. Emits-pure trace _ (err (AppError.open_url o)) (Opening.failed run o))

  run_assignment-Opening :
      (control : ControlId) (profile : ProfileId) (u : SafeUrl)
      → Emits trace
          (Opening profile control u)
          (run_assignment service profile control (Action.open_url u))
  unfolding run_assignment
  run_assignment-Opening control profile u =
      Emits-Records trace _ drawn _ _ ports.draws Opening.undrawn λ run.
        Emits-Records trace _ (emitted (action_running run profile control)) _ _ (ports.emits _)
          (Opening.unannounced run)
          λ _.
            Emits-attempt trace (Opens u) (Closes control profile u run) _ _ (run_action-Opens u)
              (report-Closes control profile u run)

  abbrev route_in : ControlId → Profile → Exec W AppError (Unit {0})
  route_in control profile = do
    found ← repository.find_assignment profile.id control
    assignment ← lift (ok_or found assignment_not_found)
    action ← lift (ok_or (first_action assignment) assignment_has_no_action)
    run_assignment service profile.id control action

  route_in-Routed :
      (control : ControlId) (profile : Profile)
      → Emits trace (Routed profile.id control) (route_in control profile)
  route_in-Routed control profile =
      Emits-Records trace _ (looked_up profile.id control) _ _ (ports.finds profile.id control)
        Routed.lookup_failed found
    where
      acts :
          (a : Assignment) (o : Option Action)
          → first_action a ≡ o
          → Emits trace
              (λ r ys.
                Routed profile.id control r (looked_up profile.id control (ok (some a)) ∷ ys))
              (lift (ok_or o assignment_has_no_action) >>= λ action.
                run_assignment service profile.id control action)
      acts a none e = Emits-pure trace _ (err assignment_has_no_action) (Routed.without_action a e)
      acts a (some (Action.open_url u)) e = record {
        at = λ w.
            let (xs, same, p) = (run_assignment-Opening control profile.id u).at w in
            (xs, same, Routed.assigned a u _ xs e p);
      }

      found :
          (o : Option Assignment)
          → Emits trace
              (λ r ys. Routed profile.id control r (looked_up profile.id control (ok o) ∷ ys))
              (lift (ok_or o assignment_not_found) >>= λ assignment.
                lift (ok_or (first_action assignment) assignment_has_no_action) >>= λ action.
                run_assignment service profile.id control action)
      found none = Emits-pure trace _ (err assignment_not_found) Routed.unassigned
      found (some a) = acts a (first_action a) refl

  -- What the choice of the profile adds.
  data Chooses : Result AppError Profile → List Effect → Type 0 where
    unlisted : (e : AppError) → Chooses (err e) (listed (err e) ∷ [])
    inactive :
        (profiles : List Profile) (e : DomainError)
        → ensure_exactly_one_active profiles ≡ err e
        → Chooses (err (AppError.domain e)) (listed (ok profiles) ∷ [])
    chosen :
        (profiles : List Profile) (profile : Profile)
        → ensure_exactly_one_active profiles ≡ ok tt
        → find active profiles ≡ some profile
        → Chooses (ok profile) (listed (ok profiles) ∷ [])

  found_active :
      (profiles : List Profile)
      → ensure_exactly_one_active profiles ≡ ok tt
      → (profile : Profile) × (find active profiles ≡ some profile)
  unfolding ensure_exactly_one_active
  found_active profiles h = find_of_count active profiles (ground (arith, h))

  active_profile-Chooses : Emits trace Chooses (active_profile service)
  unfolding active_profile ensure_active
  active_profile-Chooses =
      Emits-Records trace _ listed _ _ ports.lists unlisted
        λ profiles. checks profiles (ensure_exactly_one_active profiles) refl
    where
      checks :
          (profiles : List Profile) (r : Result DomainError (Unit {0}))
          → ensure_exactly_one_active profiles ≡ r
          → Emits trace
              (λ r' ys. Chooses r' (listed (ok profiles) ∷ ys))
              (lift (map_err AppError.domain r)
                >> lift (ok_or (find active profiles) active_profile_missing))
      checks profiles (err e) h =
          Emits-pure trace _ (err (AppError.domain e)) (inactive profiles e h)
      checks profiles (ok _) h =
          let (profile, found) = found_active profiles h in
          rw found (Emits-pure trace _ (ok profile) (chosen profiles profile h found))

  -- When each call of a port adds one entry with its answer to the trace: whatever the ports answer,
  -- a virtual control input makes the calls of a `Run`, in this order, and ends with its result.
  -- Nothing but the list of profiles and the assignment is asked for when it is refused; otherwise
  -- the running event comes before the opening, and the closing event says how the opening ended,
  -- under the same run id.
  pub route_virtual_control-Run :
      (control : ControlId) → Emits trace (Run control) (route_virtual_control service control)
  unfolding route_virtual_control
  route_virtual_control-Run control =
      Emits-bind trace Chooses (Run control) (active_profile service) (route_in control)
        active_profile-Chooses refuses routes
    where
      refuses : (e : AppError) (xs : List Effect) → Chooses (err e) xs → Run control (err e) xs
      refuses e _ (unlisted _) = Run.unlisted e
      refuses _ _ (inactive profiles e h) = Run.inactive profiles e h

      routes :
          (profile : Profile) (xs : List Effect)
          → Chooses (ok profile) xs
          → Emits trace (λ r ys. Run control r (xs ++ ys)) (route_in control profile)
      routes _ _ (chosen profiles profile h found) = record {
        at = λ w.
            let (ys, same, p) = (route_in-Routed control profile).at w in
            (ys, same, Run.routed profiles profile _ ys h found p);
      }
