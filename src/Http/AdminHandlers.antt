-- ===== src/Http/AdminHandlers.antt =====
-- internal/transport/httpapi/admin_handlers.go: the handlers of the administrators.
use sso_go.Prelude.{ℕ, Text, codes, not_found, own_account, Result, ok, err}
use sso_go.Service.Identity.{Outside}
use sso_go.Service.Admin
use sso_go.Http.Message.{Request, Reply, problem, Handler, message, replying}
use sso_go.Http.Forms.{with_admin}

abbrev activate_reply : Result (Unit {0}) → Reply
activate_reply (ok _) = message (codes "Аккаунт активирован.")
activate_reply (err not_found) = problem 400 (codes "verified pending account required")
activate_reply (err e) = problem 500 (codes "update failed")

-- "cannot disable own account" is the text of own_account
abbrev disable_reply : Result (Unit {0}) → Reply
disable_reply (ok _) = message (codes "Аккаунт отключён.")
disable_reply (err not_found) = problem 400 (codes "account not found or protected")
disable_reply (err own_account) = problem 400 (codes "account not found or protected")
disable_reply (err e) = problem 500 (codes "update failed")

abbrev grant_reply : Result (Unit {0}) → Reply
grant_reply (ok _) = message (codes "Доступ сохранён.")
grant_reply (err not_found) = problem 400 (codes "active verified account required")
grant_reply (err e) = problem 400 (codes "invalid access grant")

abbrev revoke_reply : Result (Unit {0}) → Reply
revoke_reply (ok _) = message (codes "Доступ отозван.")
revoke_reply (err not_found) = problem 404 (codes "access not found")
revoke_reply (err e) = problem 500 (codes "update failed")

module _ (out : Outside) where
  -- Server.adminActivate
  unfoldable pub admin_activate : Request → Handler
  admin_activate q =
      with_admin out q
        λ form actor w. replying activate_reply (Admin.activate actor (form (codes "user_id")) w)

  -- Server.adminDisable
  unfoldable pub admin_disable : (ℕ → Text) → Request → Handler
  admin_disable ids q =
      with_admin out q
        λ form actor w. replying disable_reply (Admin.disable ids actor (form (codes "user_id")) w)

  -- Server.adminGrant
  unfoldable pub admin_grant : Text → Request → Handler
  admin_grant event_id q = with_admin out q λ form actor w. replying grant_reply (
      Admin.grant event_id actor (form (codes "user_id")) (form (codes "project_id"))
        (form (codes "roles")) w)

  -- Server.adminRevoke
  unfoldable pub admin_revoke : Text → Request → Handler
  admin_revoke event_id q = with_admin out q λ form actor w.
      replying revoke_reply
        (Admin.revoke event_id actor (form (codes "user_id")) (form (codes "project_id")) w)
