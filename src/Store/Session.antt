-- ===== src/Store/Session.antt =====
-- internal/store/session_repo.go
use go_agent_chat_server.Base.{ℕ, ◌-◌, ◌*◌, ◌%◌, ◌^◌, Bool, ◌&&◌, ◌==◌, some, List, if◌then◌else◌}
use go_agent_chat_server.Base.Text.{Text, codes, text_eq}
use go_agent_chat_server.Base.Int.{ℤ, pos, pos_part, leb_ℤ, int64}
use go_agent_chat_server.Base.Exec.{Exec, message, record_not_found, reject, ◌>>=◌, ◌>>◌}
use go_agent_chat_server.Model
use go_agent_chat_server.Store.{Database, created_at_desc}

-- `if value <= 0 { value = fallback }`: page numbers, page sizes and limits.
abbrev pub positive_or : ℕ → ℤ → ℕ
positive_or fallback value = if leb_ℤ value (pos 0) then fallback else pos_part value

-- (page - 1) * pageSize on int, which wraps.
abbrev pub page_offset : ℕ → ℕ → ℤ
page_offset page page_size = int64 ((page - 1) * page_size % 2 ^ 64)

-- id = ? AND user_id = ?
abbrev pub owned : Text → Text → Model.Session → Bool
owned id user_id row = text_eq row.id id && text_eq row.user_id user_id

module _ {S : Type 0} (db : Database S) where
  unfoldable pub create : Model.Session → Exec S (Unit {0})
  create session = db.sessions.create session

  unfoldable pub get_by_id : Text → Exec S Model.Session
  get_by_id id = db.sessions.first (λ row. text_eq row.id id)

  unfoldable pub get_by_id_and_user_id : Text → Text → Exec S Model.Session
  get_by_id_and_user_id id user_id = db.sessions.first (owned id user_id)

  unfoldable pub list_by_user_id_page : Text → ℤ → ℤ → Exec S (List Model.Session)
  list_by_user_id_page user_id page page_size =
      let size = positive_or 20 page_size in
      db.sessions.find (record {
        where_row = λ row. text_eq row.user_id user_id;
        order = created_at_desc;
        offset = page_offset (positive_or 1 page) size;
        limit = some size;
      })

  unfoldable pub list_by_user_id : Text → Exec S (List Model.Session)
  unfolding list_by_user_id_page
  list_by_user_id user_id = list_by_user_id_page user_id (pos 1) (pos 1000)

  unfoldable pub count_by_user_id : Text → Exec S ℕ
  count_by_user_id user_id = db.sessions.count (λ row. text_eq row.user_id user_id)

  unfoldable pub update_title_by_id_and_user_id : Text → Text → Text → Exec S Model.Session
  unfolding get_by_id_and_user_id
  update_title_by_id_and_user_id id user_id title = do
    affected ← db.sessions.update (owned id user_id) (λ row. record row { title = title })
    reject (affected == 0) record_not_found
    get_by_id_and_user_id id user_id

  -- The function that runs in the transaction.
  unfoldable pub delete_rows : Text → Text → Exec S (Unit {0})
  unfolding codes
  delete_rows id user_id = do
    db.sessions.first (owned id user_id)
    db.messages.delete (λ row. text_eq row.session_id id)
    affected ← db.sessions.delete (owned id user_id)
    reject (affected == 0) (message (codes "session delete failed"))

  unfoldable pub delete_by_id_and_user_id_with_messages : Text → Text → Exec S (Unit {0})
  unfolding delete_rows
  delete_by_id_and_user_id_with_messages id user_id = db.transaction (delete_rows id user_id)
