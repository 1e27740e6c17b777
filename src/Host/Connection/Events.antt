-- ===== src/Host/Connection/Events.antt =====
-- What a command of a connection writes by itself: its events only. `IpcEventSink` of
-- crates/keyro-core/src/main.rs under `CoreService` of crates/core-app/src/lib.rs.
use keyro_core.Common.{
  ◌≡◌, refl, arith, false, List, [], ◌++◌, append-nil, String, Result, ok, err, ok_or, map_err,
}
use keyro_core.Common.Exec
use keyro_core.Common.Exec.{Exec, lift, ◌>>=◌}
use keyro_core.Common.Effects.{
  IsQuiet, Emits, Emits-bind, Emits-quiet, Emits-lift, Emits-last, Emits-pure, Emits-weaken,
  Emits-attempt,
}
use keyro_core.Domain.Ids.{UuidCrate, ProfileId}
use keyro_core.Domain.Layout.{ControlId}
use keyro_core.Domain.Urls.{SafeUrl}
use keyro_core.Domain.Assignments.{Action, first_action}
use keyro_core.App.Errors.{
  AppError, OpenUrlError, app_error_text, assignment_not_found, assignment_has_no_action,
}
use keyro_core.App.Model.{
  CoreCommand, CoreEvent, ActionRunId, action_running, action_succeeded, action_failed,
  open_url_failed, acknowledged,
}
use keyro_core.App.Service.{
  run_action, report, run_assignment, active_profile, route_virtual_control, handle_command,
}
use keyro_core.Protocol.Codec.{JsonCrate}
use keyro_core.Protocol.Messages.{ServerMessage}
use keyro_core.Ipc.Errors.{IpcError, ipc_error_text}
use keyro_core.Ipc.Replies.{event_from_core, encode_protocol_message}
use keyro_core.Host.Connection.{
  Ports, write_protocol_message, emit, connection_service, event_sink_error,
}
use keyro_core.Host.Connection.Writes.{
  Write, write, IsStream, Message, Event, Pressed, Commanded, is_virtual,
}

module _ ⦃uuid : UuidCrate⦄ ⦃json : JsonCrate⦄ {W : Type 0} (ports : Ports W)
    (trace : W → List Write) (stream : IsStream ports trace) where
  open ports use {repository, url_opener, uuids, write_line}

  pub write_protocol_message-Message :
      (message : ServerMessage)
      → Emits trace (Message message) (write_protocol_message ports message)
  unfolding write_protocol_message
  write_protocol_message-Message message = go (encode_protocol_message message) refl
    where
      go :
          (r : Result IpcError String)
          → encode_protocol_message message ≡ r
          → Emits trace (Message message) (lift (map_err ipc_error_text r) >>= write_line)
      go (ok text) h =
          Emits-last trace (Message message) (write text) (write_line text) (stream.writes text)
            (λ r. Message.written text r h)
      go (err x) h = Emits-pure trace _ (err (ipc_error_text x)) (Message.unencoded x h)

  emit-Event : (e : CoreEvent) → Emits trace (Event e) (emit ports e)
  unfolding emit
  emit-Event e = record {
    at = λ w.
        let m = write_protocol_message ports (event_from_core e) in
        let (xs, same, p) = (write_protocol_message-Message (event_from_core e)).at w in
        go (m w).0 (m w).1 w xs same p;
  }
    where
      go :
          (r : Result String (Unit {0})) (w' w : W) (xs : List Write)
          → trace w' ≡ trace w ++ xs
          → Message (event_from_core e) r xs
          → let (r', w'') = Exec.map_err event_sink_error (lift r) w' in
            (added : List Write) × (trace w'' ≡ trace w ++ added) × Event e r' added
      go (ok u) w' w xs same p = (xs, same, Event.sent (ok u) xs p)
      go (err x) w' w xs same p = (xs, same, Event.sent (err x) xs p)

  -- The opening writes nothing, and its error is an `AppError::OpenUrl`.
  data Opens : Result AppError (Unit {0}) → List Write → Type 0 where
    went : Opens (ok tt) []
    stayed : (o : OpenUrlError) → Opens (err (AppError.open_url o)) []

  run_action-Opens :
      (u : SafeUrl) → Emits trace Opens (run_action (connection_service ports) (Action.open_url u))
  unfolding run_action connection_service
  run_action-Opens u = record {
    at = λ w.
        go (url_opener.open_url u w).0 (url_opener.open_url u w).1 w ((stream.silent_open u).at w);
  }
    where
      go :
          (r : Result OpenUrlError (Unit {0})) (w' w : W)
          → trace w' ≡ trace w
          → let (r', w'') = Exec.map_err AppError.open_url (lift r) w' in
            (added : List Write) × (trace w'' ≡ trace w ++ added) × Opens r' added
      go (ok _) w' w e = ([], rw append-nil e, went)
      go (err o) w' w e = ([], rw append-nil e, stayed o)

  module _ (control : ControlId) (profile : ProfileId) (run : ActionRunId) (xs : List Write)
      (announced : Event (action_running run profile control) (ok tt) xs) where
    -- The opening and the report, after the announcement.
    abbrev Closes : Result AppError (Unit {0}) → List Write → Type 0
    Closes r ys = Pressed control r (xs ++ ys)

    report-Closes :
        (r : Result AppError (Unit {0})) (ys : List Write)
        → Opens r ys
        → Emits trace (λ r' zs. Closes r' (ys ++ zs)) (report (connection_service ports) run r)
    unfolding report connection_service
    report-Closes (ok _) _ went =
        Emits-weaken trace Closes (Event (action_succeeded run)) _
          (λ r ys sent. Pressed.succeeded run profile r xs ys announced sent)
          (emit-Event (action_succeeded run))
    report-Closes (err _) _ (stayed o) =
        let event = action_failed run open_url_failed (app_error_text (AppError.open_url o)) in
        Emits-bind trace (Event event) Closes _ _ (emit-Event event)
          (λ e ys sent. Pressed.unreported run profile o e xs ys announced sent)
          λ _ ys sent.
            Emits-pure trace _ (err (AppError.open_url o))
              (rw append-nil (Pressed.failed run profile o xs ys announced sent))

  run_assignment-Pressed :
      (profile : ProfileId) (control : ControlId) (action : Action)
      → Emits trace
          (Pressed control)
          (run_assignment (connection_service ports) profile control action)
  unfolding run_assignment connection_service
  run_assignment-Pressed profile control (Action.open_url u) =
      Emits-quiet trace _ _ _ stream.silent_uuids Pressed.refused λ run.
        Emits-bind trace (Event (action_running run profile control)) (Pressed control) _ _
          (emit-Event (action_running run profile control))
          (λ e xs sent. Pressed.unannounced run profile e xs sent)
          λ _ xs sent.
            Emits-attempt trace Opens (Closes control profile run xs sent) _ _ (run_action-Opens u)
              (report-Closes control profile run xs sent)

  active_profile-IsQuiet : IsQuiet trace (active_profile (connection_service ports))
  unfolding active_profile connection_service
  active_profile-IsQuiet = record { at = λ w. ground (arith, stream.silent_list.at w) }

  route-Pressed :
      (control : ControlId)
      → Emits trace (Pressed control) (route_virtual_control (connection_service ports) control)
  unfolding route_virtual_control connection_service
  route-Pressed control = Emits-quiet trace _ _ _ active_profile-IsQuiet Pressed.refused λ profile.
      Emits-quiet trace _ _ _ (stream.silent_find profile.id control) Pressed.refused λ found.
        Emits-lift trace _ (ok_or found assignment_not_found) _ (λ e _. Pressed.refused e)
          λ assignment _.
            Emits-lift trace _ (ok_or (first_action assignment) assignment_has_no_action) _
              (λ e _. Pressed.refused e)
              (λ action _. run_assignment-Pressed profile.id control action)

  silent :
      (c : CoreCommand)
      → is_virtual c ≡ false
      → ((w : W) → trace (handle_command (connection_service ports) c w).1 ≡ trace w)
      → Emits trace (Commanded c) (handle_command (connection_service ports) c)
  silent c plain h = record { at = λ w. ([], rw append-nil (h w), Commanded.quiet c _ plain) }

  pub handle_command-Commanded :
      (c : CoreCommand) → Emits trace (Commanded c) (handle_command (connection_service ports) c)
  unfolding handle_command connection_service
  handle_command-Commanded CoreCommand.get_snapshot =
      silent CoreCommand.get_snapshot refl (λ w. ground (arith, stream.silent_snapshot.at w))
  handle_command-Commanded CoreCommand.list_profiles =
      silent CoreCommand.list_profiles refl (λ w. ground (arith, stream.silent_list.at w))
  handle_command-Commanded (CoreCommand.create_profile name) =
      silent (CoreCommand.create_profile name) refl
        (λ w. ground (arith, (stream.silent_create name).at w))
  handle_command-Commanded (CoreCommand.rename_profile id name) =
      silent (CoreCommand.rename_profile id name) refl
        (λ w. ground (arith, (stream.silent_rename id name).at w))
  handle_command-Commanded (CoreCommand.set_active_profile id) =
      silent (CoreCommand.set_active_profile id) refl
        (λ w. ground (arith, (stream.silent_switch id).at w))
  handle_command-Commanded (CoreCommand.save_assignment a) =
      silent (CoreCommand.save_assignment a) refl (λ w. ground (arith, (stream.silent_save a).at w))
  handle_command-Commanded (CoreCommand.clear_assignment id control) =
      silent (CoreCommand.clear_assignment id control) refl
        (λ w. ground (arith, (stream.silent_clear id control).at w))
  handle_command-Commanded (CoreCommand.virtual_control_input control) =
      Emits-bind trace (Pressed control) _ _ _ (route-Pressed control)
        (λ e xs p. Commanded.unrouted control e xs p)
        λ _ xs p.
          Emits-pure trace _ (ok acknowledged) (rw append-nil (Commanded.routed control xs p))
