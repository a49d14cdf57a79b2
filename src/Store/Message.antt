-- ===== src/Store/Message.antt =====
-- internal/store/message_repo.go
use go_agent_chat_server.Base.{ℕ, Bool, true, ◌&&◌, none, some, List, ◌++◌, if◌then◌else◌}
use go_agent_chat_server.Base.Text.{Text, codes, text_eq, is_empty}
use go_agent_chat_server.Base.Int.{ℤ, pos}
use go_agent_chat_server.Base.Exec.{Exec}
use go_agent_chat_server.Model
use go_agent_chat_server.Store.{Database, created_at_asc, created_at_desc}
use go_agent_chat_server.Store.Session.{positive_or, page_offset}

-- session_id = ?
abbrev pub of_session : Text → Model.Message → Bool
of_session session_id row = text_eq row.session_id session_id

module _ {S : Type 0} (db : Database S) where
  unfoldable pub create : Model.Message → Exec S (Unit {0})
  create row = db.messages.create row

  unfoldable pub list_by_session_id : Text → Exec S (List Model.Message)
  list_by_session_id session_id = db.messages.find (record {
    where_row = of_session session_id;
    order = created_at_asc;
    offset = pos 0;
    limit = none;
  })

  unfoldable pub list_by_session_id_page : Text → ℤ → ℤ → Exec S (List Model.Message)
  list_by_session_id_page session_id page page_size =
      let size = positive_or 30 page_size in
      db.messages.find (record {
        where_row = of_session session_id;
        order = created_at_asc;
        offset = page_offset (positive_or 1 page) size;
        limit = some size;
      })

  unfoldable pub count_by_session_id : Text → Exec S ℕ
  count_by_session_id session_id = db.messages.count (of_session session_id)

  -- An empty keyword adds no condition.
  unfoldable pub search_by_session_id : Text → Text → ℤ → Exec S (List Model.Message)
  unfolding codes
  search_by_session_id session_id keyword limit =
      let pattern = codes "%" ++ keyword ++ codes "%" in
      db.messages.find (record {
        where_row = λ row.
            of_session session_id row
            && (if is_empty keyword then true else db.like row.content pattern);
        order = created_at_desc;
        offset = pos 0;
        limit = some (positive_or 5 limit);
      })
