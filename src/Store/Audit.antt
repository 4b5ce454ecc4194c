-- ===== src/Store/Audit.antt =====
-- The audit table, which every service of server/app writes in the same way.
use skybeat.Base.{ℕ, ◌+◌, String, [], ◌∷◌, ◌++◌, Option}
use skybeat.Store.{Db}
use skybeat.Store.Rows.{Time, AuditDetails}

-- `AuditEvent(...)` at `now`.
unfoldable pub add_audit : String → String → Option ℕ → Option ℕ → Time → AuditDetails → Db → Db
add_audit actor action project_id device_id now details db = record db {
  audit =
      db.audit
      ++ record {
        id = db.next_audit;
        actor = actor;
        action = action;
        project_id = project_id;
        device_id = device_id;
        occurred_at = now;
        details = details;
      }
        ∷ [];
  next_audit = db.next_audit + 1;
}
