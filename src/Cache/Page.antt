-- ===== src/Cache/Page.antt =====
-- internal/cache/message_page_cache.go
pub mod Frame
use go_agent_chat_server.Base.{
  ℕ, zero, suc, ◌*◌, ◌==◌, if◌then◌else◌, nonempty, List, ◌++◌, Option, none, some,
}
use go_agent_chat_server.Base.Text.{Text, codes}
use go_agent_chat_server.Base.Int.{ℤ}
use go_agent_chat_server.Base.Decimal.{format_int}
use go_agent_chat_server.Base.Exec.{Exec, message, pure, of_result, fail, ◌>>=◌, ◌>>◌}
use go_agent_chat_server.Model
use go_agent_chat_server.Cache.{Redis, Json}

-- 2 * time.Minute
abbrev message_page_cache_ttl : ℕ
message_page_cache_ttl = 2 * 60 * 1000

unfoldable pub message_page_cache_key : Text → ℤ → ℤ → Text
unfolding codes
message_page_cache_key session_id page page_size =
    codes "session:messages_page:"
    ++ session_id
    ++ codes ":p:"
    ++ format_int page
    ++ codes ":s:"
    ++ format_int page_size

module _ {S : Type 0} (redis : Redis S) (json : Json) where
  decode_page : Option Text → Exec S (Option (List Model.Message × ℕ))
  decode_page none = pure none
  decode_page (some value) = do cached ← of_result (json.unmarshal_page value); pure (some cached)

  unfoldable pub get_message_page : Text → ℤ → ℤ → Exec S (Option (List Model.Message × ℕ))
  unfolding decode_page
  get_message_page session_id page page_size = do
    value ← redis.get (message_page_cache_key session_id page page_size)
    decode_page value

  unfoldable pub set_message_page : Text → ℤ → ℤ → List Model.Message → ℕ → Exec S (Unit {0})
  set_message_page session_id page page_size messages total = do
    encoded ← of_result (json.marshal_page (messages, total))
    redis.set (message_page_cache_key session_id page page_size) encoded message_page_cache_ttl

module _ {S : Type 0} (redis : Redis S) where
  -- The loop over the cursor. The fuel bounds its rounds; running out has no counterpart.
  unfoldable pub scan_and_delete : ℕ → ℕ → Text → Exec S (Unit {0})
  unfolding codes
  scan_and_delete zero cursor pattern = fail (message (codes "out of fuel"))
  scan_and_delete (suc rounds) cursor pattern = do
    (keys, next) ← redis.scan cursor pattern
    if nonempty keys then redis.del keys else pure tt
    (let more = scan_and_delete rounds next pattern in if next == 0 then pure tt else more)

  unfoldable pub delete_message_page_caches : ℕ → Text → Exec S (Unit {0})
  unfolding codes scan_and_delete
  delete_message_page_caches rounds session_id =
      scan_and_delete rounds 0 (codes "session:messages_page:" ++ session_id ++ codes ":*")
