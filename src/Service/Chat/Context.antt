-- ===== src/Service/Chat/Context.antt =====
-- internal/service/chat_service.go: the functions on texts and messages.
use go_agent_chat_server.Base.{
  ℕ, Bool, ◌&&◌, ◌||◌, not, leb, ltb, if◌then◌else◌, any, length, take, map, reverse, nonempty,
  List, [], ◌∷◌, ◌++◌, ◌+◌, ◌≤◌, ◌≡◌, Bool-cases, inl, inr, arith, length-take, length-append, true,
  false,
}
use go_agent_chat_server.Base.Text.{
  Text, codes, text_eq, is_empty, trim_space, to_lower, contains, replace_all, join,
}
use go_agent_chat_server.Model
use go_agent_chat_server.Tool.Registry

unfoldable pub is_mock_model : Text → Bool
unfolding codes to_lower trim_space text_eq
is_mock_model model_name =
    let name = to_lower (trim_space model_name) in
    text_eq name (codes "mock") || text_eq name (codes "mock-llm")

unfoldable pub truncate_for_context : Text → ℕ → Text
unfolding codes trim_space
truncate_for_context value max =
    let runes = trim_space value in
    if leb (length runes) max then runes else take max runes ++ codes "..."

-- The loop runs from the last message to the first.
last_user_from : List Model.Message → Text
last_user_from [] = codes "ok"
last_user_from (m ∷ earlier) =
    let before = last_user_from earlier in
    if text_eq m.role (codes "user") && not (is_empty (trim_space m.content))
    then truncate_for_context m.content 80
    else before

unfoldable pub last_user_message : List Model.Message → Text
unfolding codes last_user_from truncate_for_context
last_user_message messages = last_user_from (reverse messages)

unfoldable pub session_keywords : List Text
unfolding codes
session_keywords =
    codes "历史"
    ∷ codes "之前"
    ∷ codes "刚才"
    ∷ codes "上面"
    ∷ codes "前面"
    ∷ codes "history"
    ∷ codes "previous"
    ∷ codes "earlier"
    ∷ codes "search session"
    ∷ []

unfoldable pub should_search_session : Text → Bool
unfolding session_keywords any contains to_lower
should_search_session input = any (contains (to_lower input)) session_keywords

unfoldable pub search_replacers : List Text
unfolding codes
search_replacers =
    codes "历史"
    ∷ codes "之前"
    ∷ codes "刚才"
    ∷ codes "上面"
    ∷ codes "前面"
    ∷ codes "帮我"
    ∷ codes "查一下"
    ∷ codes "搜索"
    ∷ codes "查询"
    ∷ codes "history"
    ∷ codes "previous"
    ∷ codes "earlier"
    ∷ codes "search session"
    ∷ []

unfoldable pub remove_all : Text → List Text → Text
unfolding replace_all
remove_all keyword [] = keyword
remove_all keyword (old ∷ rest) = remove_all (replace_all keyword old []) rest

unfoldable pub extract_search_keyword : Text → Text
unfolding remove_all search_replacers trim_space
extract_search_keyword input =
    let keyword = trim_space (remove_all (trim_space input) search_replacers) in
    if ltb 32 (length keyword) then take 32 keyword else keyword

-- fmt.Sprintf("- %s: %s", …) of a tool's result
unfoldable pub tool_line : Registry.Result → Text
unfolding codes
tool_line r = codes "- " ++ r.name ++ codes ": " ++ r.output

-- What buildToolContext adds for the messages that a search has found.
unfoldable pub search_line : List Model.Message → Text
unfolding codes join truncate_for_context
search_line messages =
    codes "- session_search: "
    ++ join (map (λ m. m.role ++ codes ": " ++ truncate_for_context m.content 200) messages)
        (codes " | ")

unfoldable pub context_preamble : Text
unfolding codes
context_preamble =
    codes
      "Use the following context when it is relevant. Do not fabricate details not supported by the context.\n\n"

-- The parts of the system message, from the extra context and the tools' context.
unfoldable pub context_parts : Text → Text → List Text
unfolding codes trim_space
context_parts extra_context tool_context =
    (if is_empty (trim_space extra_context)
      then []
      else (codes "External knowledge context:\n" ++ trim_space extra_context) ∷ [])
    ++ (if is_empty tool_context then [] else (codes "Tool results:\n" ++ tool_context) ∷ [])

unfoldable pub system_message : List Text → Model.Message
unfolding codes join context_preamble
system_message parts = record {
  id = [];
  session_id = [];
  role = codes "system";
  content = context_preamble ++ join parts (codes "\n\n");
  created_at = 0;
  updated_at = 0;
}

-- injectSystemContext, given the tools' context.
unfoldable pub with_context : Text → Text → List Model.Message → List Model.Message
unfolding context_parts system_message
with_context extra_context tool_context messages =
    let parts = context_parts extra_context tool_context in
    if nonempty parts then system_message parts ∷ messages else messages

short_enough : (n max : ℕ) → leb n max ≡ true → n ≤ max + 3
short_enough n max h = ground arith

not_longer : (n : ℕ) → ltb 32 n ≡ false → n ≤ 32
not_longer n h = ground arith

-- A text in the context has at most three runes more than the bound that was asked for.
pub length-truncate_for_context :
    (value : Text) (max : ℕ) → length (truncate_for_context value max) ≤ max + 3
unfolding truncate_for_context codes
length-truncate_for_context value max = elim (Bool-cases (leb (length (trim_space value)) max)) [
  | inl short ↦ rw short (short_enough (length (trim_space value)) max short)
  | inr long ↦ rw long (
      omega (
        arith,
        length-append (take max (trim_space value)) (46 ∷ 46 ∷ 46 ∷ []),
        length-take max (trim_space value),
      ))
]

-- A keyword for the search in a session has at most 32 runes.
pub length-extract_search_keyword : (input : Text) → length (extract_search_keyword input) ≤ 32
unfolding extract_search_keyword
length-extract_search_keyword input =
    let keyword = trim_space (remove_all (trim_space input) search_replacers) in
    elim (Bool-cases (ltb 32 (length keyword))) [
      | inl long ↦ rw long (omega (arith, length-take 32 keyword))
      | inr short ↦ rw short (not_longer (length keyword) short)
    ]
