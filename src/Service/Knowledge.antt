-- ===== src/Service/Knowledge.antt =====
-- internal/service/knowledge_service.go
use go_agent_chat_server.Base.{ℕ, if◌then◌else◌, List}
use go_agent_chat_server.Base.Text.{Text, codes, is_empty, trim_space}
use go_agent_chat_server.Base.Int.{ℤ}
use go_agent_chat_server.Base.Exec.{Exec, message, pure, reject, ◌>>=◌, ◌>>◌}
use go_agent_chat_server.Model
use go_agent_chat_server.Store.Knowledge
use go_agent_chat_server.Service.{Env, fresh_id}

module _ {S : Type 0} (env : Env S) where
  unfoldable pub new_doc : Text → Text → Text → Text → Model.KnowledgeDoc
  new_doc id user_id title content = record {
    id = id;
    user_id = user_id;
    title = title;
    content = content;
    created_at = 0;
    updated_at = 0;
  }

  unfoldable pub create_doc : Text → Text → Text → Exec S Model.KnowledgeDoc
  unfolding codes trim_space new_doc
  create_doc user_id title content = do
    reject (is_empty user_id) (message (codes "user_id is required"))
    let trimmed = trim_space title
    let body = trim_space content
    reject (is_empty body) (message (codes "content is required"))
    id ← fresh_id env
    let doc = new_doc id user_id (if is_empty trimmed then codes "Untitled" else trimmed) body
    Knowledge.create env.db doc
    pure doc

  unfoldable pub list_docs : Text → ℤ → ℤ → Exec S (List Model.KnowledgeDoc × ℕ)
  unfolding codes
  list_docs user_id page page_size = do
    reject (is_empty user_id) (message (codes "user_id is required"))
    total ← Knowledge.count_by_user_id env.db user_id
    docs ← Knowledge.list_by_user_id env.db user_id page page_size
    pure (docs, total)

  unfoldable pub get_doc : Text → Text → Exec S Model.KnowledgeDoc
  unfolding codes
  get_doc user_id id = do
    reject (is_empty user_id) (message (codes "user_id is required"))
    reject (is_empty id) (message (codes "doc_id is required"))
    Knowledge.get_by_id_and_user_id env.db id user_id

  unfoldable pub delete_doc : Text → Text → Exec S (Unit {0})
  unfolding codes
  delete_doc user_id id = do
    reject (is_empty user_id) (message (codes "user_id is required"))
    reject (is_empty id) (message (codes "doc_id is required"))
    Knowledge.delete_by_id_and_user_id env.db id user_id

  unfoldable pub search_docs : Text → Text → ℤ → Exec S (List Model.KnowledgeDoc)
  unfolding codes trim_space
  search_docs user_id keyword limit = do
    reject (is_empty user_id) (message (codes "user_id is required"))
    Knowledge.search env.db user_id (trim_space keyword) limit
