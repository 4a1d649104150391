-- ===== src/Tests/Orders.antt =====
-- Tests of `management_commands` (backend/signage/api.py).
use digital_signage_project.Base.{
  ◌≡◌, refl, none, List, [], ◌∷◌, first_by, get, put, err, Error, arith,
}
use digital_signage_project.Models.{DeviceCommand, CommandKind}
use digital_signage_project.Commands.{delivered, acknowledged, fetch_command, acknowledge_command}
use digital_signage_project.Commands.Lifecycle.{
  HasKeys, Request, Requests, Shows, Requests-Shows, acknowledge_command_once,
}

abbrev command : DeviceCommand
command = record {
  id = 1;
  created_at = 10;
  device = 3;
  kind = CommandKind.sync_now;
  requested_by = 7;
  expires_at = 900;
  delivered_at = none;
  acknowledged_at = none;
}

abbrev commands : List DeviceCommand
commands = command ∷ []

commands-HasKeys : HasKeys commands
commands-HasKeys k = ground arith

fetched-HasKeys : HasKeys (delivered 20 command ∷ [])
fetched-HasKeys k = ground arith

Requests-Shows_example :
    HasKeys (acknowledged 30 (delivered 20 command) ∷ [])
    × Shows 1 command (acknowledged 30 (delivered 20 command) ∷ [])
unfolding fetch_command acknowledge_command first_by get put
Requests-Shows_example =
    Requests-Shows 1 command {t = commands} {u = acknowledged 30 (delivered 20 command) ∷ []}
      commands-HasKeys refl
      (Requests.next (Requests.next Requests.here (Request.fetch 20 3))
        (Request.acknowledge 30 3 1 refl))

acknowledge_command_once_example :
    acknowledge_command 40 3 1 (acknowledged 30 (delivered 20 command) ∷ [])
    ≡ err (Error.validation_error "Command is unavailable.")
unfolding acknowledge_command get put
acknowledge_command_once_example =
    acknowledge_command_once 30 3 40 3 1 (delivered 20 command ∷ [])
      (acknowledged 30 (delivered 20 command) ∷ []) (acknowledged 30 (delivered 20 command) ∷ [])
      fetched-HasKeys refl Requests.here
