-- ===== src/Store/Knowledge.antt =====
-- internal/store/knowledge_repo.go
use go_agent_chat_server.Base.{ℕ, Bool, true, ◌&&◌, ◌||◌, ◌==◌, some, List, ◌++◌, if◌then◌else◌}
use go_agent_chat_server.Base.Text.{Text, codes, text_eq, is_empty}
use go_agent_chat_server.Base.Int.{ℤ, pos}
use go_agent_chat_server.Base.Exec.{Exec, record_not_found, reject, ◌>>=◌}
use go_agent_chat_server.Model
use go_agent_chat_server.Store.{Database, created_at_desc}
use go_agent_chat_server.Store.Session.{positive_or, page_offset}

abbrev pub owned : Text → Text → Model.KnowledgeDoc → Bool
owned id user_id row = text_eq row.id id && text_eq row.user_id user_id

module _ {S : Type 0} (db : Database S) where
  unfoldable pub create : Model.KnowledgeDoc → Exec S (Unit {0})
  create doc = db.docs.create doc

  unfoldable pub list_by_user_id : Text → ℤ → ℤ → Exec S (List Model.KnowledgeDoc)
  list_by_user_id user_id page page_size =
      let size = positive_or 20 page_size in
      db.docs.find (record {
        where_row = λ row. text_eq row.user_id user_id;
        order = created_at_desc;
        offset = page_offset (positive_or 1 page) size;
        limit = some size;
      })

  unfoldable pub count_by_user_id : Text → Exec S ℕ
  count_by_user_id user_id = db.docs.count (λ row. text_eq row.user_id user_id)

  unfoldable pub get_by_id_and_user_id : Text → Text → Exec S Model.KnowledgeDoc
  get_by_id_and_user_id id user_id = db.docs.first (owned id user_id)

  unfoldable pub delete_by_id_and_user_id : Text → Text → Exec S (Unit {0})
  delete_by_id_and_user_id id user_id = do
    affected ← db.docs.delete (owned id user_id)
    reject (affected == 0) record_not_found

  unfoldable pub search : Text → Text → ℤ → Exec S (List Model.KnowledgeDoc)
  unfolding codes
  search user_id keyword limit =
      let pattern = codes "%" ++ keyword ++ codes "%" in
      db.docs.find (record {
        where_row = λ row.
            text_eq row.user_id user_id
            && (if is_empty keyword
                then true
                else db.like row.title pattern || db.like row.content pattern);
        order = created_at_desc;
        offset = pos 0;
        limit = some (positive_or 5 limit);
      })
