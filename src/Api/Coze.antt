-- ===== src/Api/Coze.antt =====
-- internal/api/coze.go and internal/api/knowledge.go: the texts that the handlers build.
pub mod Handlers
use go_agent_chat_server.Base.{
  ℕ, Bool, true, leb, if◌then◌else◌, any, length, take, map, nonempty, List, [], ◌∷◌, ◌++◌, arith,
}
use go_agent_chat_server.Base.Text.{Text, codes, is_empty, trim_space, to_lower, contains, join}
use go_agent_chat_server.Base.Int.{ℤ, pos, negsuc, leb_ℤ, ◌≤ℤ◌}
use go_agent_chat_server.Model
use go_agent_chat_server.Queue.Event.{Value}

pub record CozeCampusAskRequest : Type 0 where
  pub user_id : Text
  pub coze_user_id : Text
  pub session_id : Text
  pub query : Text
  pub intent : Text
  pub history_summary : Text
  pub extra_context : Text
  pub model : Text
  pub top_k : ℤ
  pub metadata : Value

pub record CozeSource : Type 0 where
  pub id : Text
  pub title : Text
  pub snippet : Text

-- The handler's default user stands for a blank one.
unfoldable pub resolve_user_id : Text → Text → Text
unfolding trim_space
resolve_user_id default_user_id user_id =
    let trimmed = trim_space user_id in if is_empty trimmed then default_user_id else trimmed

unfoldable pub normalize_top_k : ℤ → ℤ
normalize_top_k top_k =
    if leb_ℤ top_k (pos 0) then pos 5 else if leb_ℤ top_k (pos 10) then top_k else pos 10

unfoldable pub truncate_coze_snippet : Text → ℕ → Text
unfolding codes trim_space
truncate_coze_snippet value max =
    let runes = trim_space value in
    if leb (length runes) max then runes else take max runes ++ codes "..."

unfoldable pub build_coze_sources : List Model.KnowledgeDoc → List CozeSource
unfolding truncate_coze_snippet
build_coze_sources = map (λ doc. record {
  id = doc.id;
  title = doc.title;
  snippet = truncate_coze_snippet doc.content 180;
})

unfoldable pub knowledge_entry : Model.KnowledgeDoc → Text
unfolding codes
knowledge_entry doc =
    codes "[Doc: "
    ++ doc.title
    ++ codes "]\n"
    ++ (if leb (length doc.content) 1000 then doc.content else take 1000 doc.content ++ codes "...")

unfoldable pub build_knowledge_context : List Model.KnowledgeDoc → Text
unfolding codes join knowledge_entry
build_knowledge_context docs =
    if nonempty docs
    then join (map knowledge_entry docs) (codes "\n\n")
    else codes "No matching knowledge documents were found."

unfoldable pub optional_part : Text → Text → List Text
unfolding trim_space
optional_part title value =
    let trimmed = trim_space value in if is_empty trimmed then [] else (title ++ trimmed) ∷ []

unfoldable pub build_coze_context : CozeCampusAskRequest → List Model.KnowledgeDoc → Text
unfolding codes join optional_part build_knowledge_context
build_coze_context req docs =
    join
      (codes
          "You are 云小灵, a campus intelligent assistant for Yunnan University. Answer clearly, accurately, and avoid fabricating unsupported details."
        ∷ (optional_part (codes "Intent: ") req.intent
            ++ optional_part (codes "Conversation history summary:\n") req.history_summary
            ++ optional_part (codes "Extra context from Coze workflow:\n") req.extra_context
            ++ (codes "Campus knowledge documents:\n" ++ build_knowledge_context docs) ∷ []))
      (codes "\n\n")

unfoldable pub build_coze_system_prompt : Text → Text
unfolding codes
build_coze_system_prompt extra_context =
    codes
      "Use the following campus context when it is relevant. If the context is insufficient or the question asks for latest deadlines/notices, say that official sources or web search should be checked.\n\n"
    ++ extra_context

unfoldable pub web_keywords : List Text
unfolding codes
web_keywords =
    codes "最新"
    ∷ codes "今年"
    ∷ codes "现在"
    ∷ codes "截止"
    ∷ codes "报名时间"
    ∷ codes "通知"
    ∷ codes "官网"
    ∷ codes "latest"
    ∷ codes "deadline"
    ∷ codes "2026"
    ∷ codes "2025"
    ∷ []

unfoldable pub should_coze_need_web : Text → Text → List Model.KnowledgeDoc → Bool
unfolding codes any contains to_lower web_keywords
should_coze_need_web query intent docs =
    let text = to_lower (query ++ codes " " ++ intent) in
    if nonempty docs then any (λ keyword. contains text (to_lower keyword)) web_keywords else true

-- The number of documents that is asked for is between 1 and 10.
pub normalize_top_k-bounds :
    (top_k : ℤ) → (pos 1 ≤ℤ normalize_top_k top_k) × (normalize_top_k top_k ≤ℤ pos 10)
unfolding normalize_top_k
normalize_top_k-bounds (pos n) = ground arith
normalize_top_k-bounds (negsuc n) = ground arith
