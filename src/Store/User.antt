-- ===== src/Store/User.antt =====
-- internal/store/user_repo.go
use go_agent_chat_server.Base.Text.{Text, text_eq}
use go_agent_chat_server.Base.Exec.{Exec}
use go_agent_chat_server.Model
use go_agent_chat_server.Store.{Database}

module _ {S : Type 0} (db : Database S) where
  unfoldable pub create : Model.User → Exec S (Unit {0})
  create user = db.users.create user

  unfoldable pub get_by_id : Text → Exec S Model.User
  get_by_id id = db.users.first (λ row. text_eq row.id id)

  unfoldable pub get_by_username : Text → Exec S Model.User
  get_by_username username = db.users.first (λ row. text_eq row.username username)
