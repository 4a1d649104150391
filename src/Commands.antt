-- ===== src/Commands.antt =====
-- Commands for devices: `DeviceCommand` (backend/signage/models.py) and `management_commands`
-- (backend/signage/api.py), after the authentication of its device.
pub mod Lifecycle
use digital_signage_project.Base.{
  ℕ, String, Bool, true, false, ◌&&◌, Option, none, some, List, [], ◌∷◌, ltb, ◌==◌, if◌then◌else◌,
  is_none, is_some, filter, first_by, get, put, Result, ok, err, Error,
}
use digital_signage_project.Models.{DeviceCommand, command_id}

-- `filter(device=device, acknowledged_at__isnull=True, expires_at__gt=now)`
abbrev pub is_available : ℕ → ℕ → DeviceCommand → Bool
is_available now device c = c.device == device && is_none c.acknowledged_at && ltb now c.expires_at

abbrev pub created_asc : DeviceCommand → DeviceCommand → Bool
created_asc a b = ltb a.created_at b.created_at

abbrev pub delivered : ℕ → DeviceCommand → DeviceCommand
delivered now c = record c { delivered_at = some now }

abbrev pub acknowledged : ℕ → DeviceCommand → DeviceCommand
acknowledged now c = record c { acknowledged_at = some now }

-- The request with GET: the command to run, and the table.
unfoldable pub fetch_command :
    ℕ → ℕ → List DeviceCommand → Option DeviceCommand × List DeviceCommand
fetch_command now device commands =
    elim (first_by created_asc (filter (is_available now device) commands)) [
      | none ↦ (none, commands)
      | some c ↦
          if is_none c.delivered_at
          then (some (delivered now c), put command_id (delivered now c) commands)
          else (some c, commands)
    ]

abbrev pub unavailable : Error
unavailable = Error.validation_error "Command is unavailable."

-- The request with POST, for the key in its body.
unfoldable pub acknowledge_command : ℕ → ℕ → ℕ → List DeviceCommand → Result (List DeviceCommand)
acknowledge_command now device k commands = elim (get command_id k commands) [
  | none ↦ err unavailable
  | some c ↦
      if is_available now device c && is_some c.delivered_at
      then ok (put command_id (acknowledged now c) commands)
      else err unavailable
]
