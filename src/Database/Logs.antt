-- ===== src/Database/Logs.antt =====
-- internal/db/postgres/logins.sql.go, and CreateAuditLog of admin.sql.go
use golang_auth_api.Prelude.{ℕ, [], ◌∷◌, ◌++◌}
use golang_auth_api.Model.Rows.{Login, AuditLog, Database}
use golang_auth_api.Platform.{Reply, found}

unfoldable pub insert_login : Login → ℕ → Database → Reply Unit × Database
insert_login l now db = (found tt, record db { logins = db.logins ++ l ∷ [] })

unfoldable pub create_audit_log : AuditLog → ℕ → Database → Reply Unit × Database
create_audit_log a now db = (found tt, record db { audit_logs = db.audit_logs ++ a ∷ [] })
