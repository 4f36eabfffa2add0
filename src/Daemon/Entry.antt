-- ===== src/Daemon/Entry.antt =====
-- daemon/src/main.rs: the commands of the program.
--
-- `{:?}` on texts is a parameter of what is printed. The outcomes of a command's calls are
-- arguments: of logging, of the runtime, of the connection, and of each poll.
pub mod Resolved
use lensguard.Prelude.{
  ◌||◌, true, false, not, ℕ, ◌++◌, List, [], ◌∷◌, Option, none, some, Bool, Text, codes, Result, ok,
  err,
}
use lensguard.Decimal.{show}
use lensguard.Paths.{OsString}
use lensguard.Core.Model.{ApplicationIdentity, CameraSession}
use lensguard.Core.Capture.{availability_text}
use lensguard.Core.State.{
  MonitorEvent, session_started, session_updated, session_stopped, observer_availability_changed,
  suppression_diagnostics_changed,
}
use lensguard.Resolver.Request.{ResolutionRequest, request_from}
use lensguard.Daemon.Wire.{ObserverError}
use lensguard.Daemon.Config.{
  Command, run, inspect_v4l2, watch_v4l2, serve_dbus, version, help, Config, ConfigError,
  parse_from,
}
use lensguard.Daemon.Runtime.{RuntimeError}

pub data ExitCode : Type 0 where
  success failure usage_error : ExitCode

module _ (debug : Text → Text) where
  abbrev session_line : Text → CameraSession → Text
  session_line word session =
      word
      ++ (session.id.text
          ++ (codes " application="
              ++ (debug session.application.display_name
                  ++ (codes " camera=" ++ debug session.device.display_name))))

  -- `print_monitor_event`, as the line that it prints.
  unfoldable pub print_monitor_event : MonitorEvent → Text
  print_monitor_event (session_started session) = session_line (codes "START session=") session
  print_monitor_event (session_updated session) = session_line (codes "UPDATE session=") session
  print_monitor_event (session_stopped session_id) = codes "STOP session=" ++ session_id.text
  print_monitor_event (observer_availability_changed availability detail) =
      codes "OBSERVER availability="
      ++ (availability_text availability ++ (codes " detail=" ++ debug detail))
  print_monitor_event (suppression_diagnostics_changed d) =
      codes "SUPPRESSED broker="
      ++ (show d.suppressed_broker_events
          ++ (codes " unknown=" ++ show d.suppressed_unknown_events))

module _ {ℓ} {R : Type ℓ} (lookup : ResolutionRequest → R → ApplicationIdentity × R) where
  abbrev with_resolved :
      (CameraSession → MonitorEvent) → CameraSession → ApplicationIdentity × R → MonitorEvent × R
  with_resolved event session (application, resolver) =
      (event (record session { application = application }), resolver)

  -- `resolve_application`
  unfoldable pub resolve_application : MonitorEvent → R → MonitorEvent × R
  resolve_application (session_started session) resolver =
      with_resolved session_started session (lookup (request_from session.application) resolver)
  resolve_application (session_updated session) resolver =
      with_resolved session_updated session (lookup (request_from session.application) resolver)
  resolve_application other resolver = (other, resolver)

  -- The loop of `watch_v4l2`, with what each poll gives: the lines that are printed, and the exit
  -- code if the loop has ended.
  unfoldable pub watch_loop :
      (Text → Text)
      → List (Result ObserverError (Option MonitorEvent))
      → R
      → List Text × Option ExitCode
  watch_loop debug [] resolver = ([], none)
  watch_loop debug (err error ∷ rest) resolver = ([], some failure)
  watch_loop debug (ok none ∷ rest) resolver = watch_loop debug rest resolver
  watch_loop debug (ok (some event) ∷ rest) resolver =
      let (resolved, resolver') = resolve_application event resolver in
      let (printed, code) = watch_loop debug rest resolver' in
      (print_monitor_event debug resolved ∷ printed, code)

  -- `watch_v4l2`
  unfoldable pub watch :
      (Text → Text)
      → Result ObserverError (Unit {0})
      → Option R
      → List (Result ObserverError (Option MonitorEvent))
      → List Text × Option ExitCode
  watch debug (err error) resolver polls = ([], some failure)
  watch debug (ok _) none polls = ([], some failure)
  watch debug (ok _) (some resolver) polls =
      let (printed, code) = watch_loop debug polls resolver in
      (codes "Direct V4L2 camera monitor ready; press Ctrl+C to stop" ∷ printed, code)

-- `inspect_v4l2`
unfoldable pub inspect :
    (Text → Text)
    → Result ObserverError (Unit {0})
    → Result ObserverError (Option MonitorEvent)
    → List Text × Option ExitCode
inspect debug (err error) poll = ([], some failure)
inspect debug (ok _) (err error) = ([], some failure)
inspect debug (ok _) (ok none) =
    (codes "V4L2 observer connected; no status message received" ∷ [], some success)
inspect debug (ok _) (ok (some event)) = (print_monitor_event debug event ∷ [], some success)

-- `run_async`: whether the runtime can be created, and what the future gives.
abbrev pub run_async : Bool → Result RuntimeError (Unit {0}) → ExitCode
run_async false future = failure
run_async true (ok _) = success
run_async true (err error) = failure

-- What the calls of a command give.
pub record Outcomes {ℓ} (R : Type ℓ) : Type ℓ where
  pub initialize_logging : Bool
  pub runtime : Bool
  pub run_daemon : Result RuntimeError (Unit {0})
  pub run_standalone_dbus : Result RuntimeError (Unit {0})
  pub connect : Result ObserverError (Unit {0})
  pub polls : List (Result ObserverError (Option MonitorEvent))
  pub new_resolver : Option R

abbrev first_poll :
    List (Result ObserverError (Option MonitorEvent)) → Result ObserverError (Option MonitorEvent)
first_poll [] = ok none
first_poll (poll ∷ _) = poll

module _ {ℓ} {R : Type ℓ} (lookup : ResolutionRequest → R → ApplicationIdentity × R)
    (debug : Text → Text) (version_line usage : Text) where
  -- `dispatch`, and the commands that `main` answers itself.
  unfoldable pub dispatch : Command → Outcomes R → List Text × Option ExitCode
  dispatch run o = ([], some (run_async o.runtime o.run_daemon))
  dispatch inspect_v4l2 o = inspect debug o.connect (first_poll o.polls)
  dispatch watch_v4l2 o = watch lookup debug o.connect o.new_resolver o.polls
  dispatch serve_dbus o = ([], some (run_async o.runtime o.run_standalone_dbus))
  dispatch version o = (version_line ∷ [], some success)
  dispatch help o = (usage ∷ [], some success)

  abbrev needs_logging : Command → Bool
  needs_logging version = false
  needs_logging help = false
  needs_logging _ = true

  abbrev pub run_command : Bool → Command → Outcomes R → List Text × Option ExitCode
  run_command false command o = ([], some failure)
  run_command true command o = dispatch command o

  abbrev run_config : Result ConfigError Config → Outcomes R → List Text × Option ExitCode
  run_config (err error) o = ([], some usage_error)
  run_config (ok config) o =
      run_command (not (needs_logging config.command) || o.initialize_logging) config.command o

  -- `main`: what goes to standard output, and the exit code, if the program ends.
  unfoldable pub main : List OsString → Outcomes R → List Text × Option ExitCode
  main arguments o = run_config (parse_from arguments) o
