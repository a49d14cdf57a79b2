-- ===== src/Cache/Page/Frame.antt =====
-- internal/cache/message_page_cache.go: what the deletion of cached pages leaves alone.
use go_agent_chat_server.Base.{ℕ, zero, suc, List}
use go_agent_chat_server.Base.Text.{Text}
use go_agent_chat_server.Base.Exec.Keeps.{Keeps, keeps_rules}
use go_agent_chat_server.Cache.{Redis}
use go_agent_chat_server.Cache.Page.{scan_and_delete, delete_message_page_caches}

module _ {S : Type 0} (redis : Redis S) {J : S → Type 0}
    (redis_scan : (cursor : ℕ) (pattern : Text) → Keeps J (redis.scan cursor pattern))
    (redis_del : (keys : List Text) → Keeps J (redis.del keys)) where
  scan_and_delete-Keeps :
      (rounds cursor : ℕ) (pattern : Text) → Keeps J (scan_and_delete redis rounds cursor pattern)
  unfolding scan_and_delete
  scan_and_delete-Keeps zero cursor pattern = search keeps_rules
  scan_and_delete-Keeps (suc rounds) cursor pattern =
      let more : (next : ℕ) → Keeps J (scan_and_delete redis rounds next pattern) =
        λ next. scan_and_delete-Keeps rounds next pattern in
      search (keeps_rules, redis_scan, redis_del, more) depth 16

  pub page_caches-Keeps :
      (rounds : ℕ) (session_id : Text)
      → Keeps J (delete_message_page_caches redis rounds session_id)
  unfolding delete_message_page_caches
  page_caches-Keeps rounds session_id = scan_and_delete-Keeps rounds 0 _
