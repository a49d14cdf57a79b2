-- ===== src/Cache/Message.antt =====
-- internal/cache/message_cache.go
use go_agent_chat_server.Base.{ℕ, ◌*◌, List, [], ◌∷◌, ◌++◌, Option, none, some}
use go_agent_chat_server.Base.Text.{Text, codes}
use go_agent_chat_server.Base.Exec.{Exec, pure, of_result, ◌>>=◌}
use go_agent_chat_server.Model
use go_agent_chat_server.Cache.{Redis, Json}

-- 5 * time.Minute
abbrev message_cache_ttl : ℕ
message_cache_ttl = 5 * 60 * 1000

unfoldable pub message_cache_key : Text → Text
unfolding codes
message_cache_key session_id = codes "session:messages:" ++ session_id

module _ {S : Type 0} (redis : Redis S) (json : Json) where
  unfoldable pub decode : Option Text → Exec S (Option (List Model.Message))
  decode none = pure none
  decode (some value) = do
    messages ← of_result (json.unmarshal_messages value)
    pure (some messages)

  -- The messages and whether there was a hit.
  unfoldable pub get_messages : Text → Exec S (Option (List Model.Message))
  unfolding decode
  get_messages session_id = do value ← redis.get (message_cache_key session_id); decode value

  -- A nil slice is stored like an empty one.
  unfoldable pub set_messages : Text → List Model.Message → Exec S (Unit {0})
  set_messages session_id messages = do
    encoded ← of_result (json.marshal_messages messages)
    redis.set (message_cache_key session_id) encoded message_cache_ttl

module _ {S : Type 0} (redis : Redis S) where
  unfoldable pub delete_messages : Text → Exec S (Unit {0})
  delete_messages session_id = redis.del (message_cache_key session_id ∷ [])
