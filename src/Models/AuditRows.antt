-- ===== src/Models/AuditRows.antt =====
-- `AuditEvent` (backend/signage/models.py) and `audit` (backend/signage/services.py).
use digital_signage_project.Base.{ℕ, String, Bool, Option, List, [], ◌∷◌, ◌++◌}

-- The dictionaries that the code passes as metadata.
pub data Metadata : Type 0 where
  empty : Metadata
  replacement : ℕ → Metadata
  urgent : Bool → Metadata
  revoked : ℕ → ℕ → ℕ → Metadata
  disabled : ℕ → ℕ → Metadata

pub record AuditEvent : Type 0 where
  pub actor : Option ℕ
  pub action : String
  pub target_type : String
  pub target_id : ℕ
  pub metadata : Metadata

-- The log only grows: `AuditEvent.save` and `delete` refuse everything else.
abbrev pub audit : Option ℕ → String → String → ℕ → Metadata → List AuditEvent → List AuditEvent
audit actor action target_type target_id metadata log =
    log
    ++ record {
      actor = actor;
      action = action;
      target_type = target_type;
      target_id = target_id;
      metadata = metadata;
    }
      ∷ []
