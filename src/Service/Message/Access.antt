-- ===== src/Service/Message/Access.antt =====
-- internal/service/message_service.go: the sessions that a user may reach.
use go_agent_chat_server.Base.{◌≡◌, refl, false}
use go_agent_chat_server.Base.Text.{Text, codes, is_empty}
use go_agent_chat_server.Base.Int.{ℤ}
use go_agent_chat_server.Base.Exec.{Err, message, err}
use go_agent_chat_server.Metrics.{Process, call}
use go_agent_chat_server.Store.Session
use go_agent_chat_server.Store.Session.{owned}
use go_agent_chat_server.Service.{Env}
use go_agent_chat_server.Service.Message.{
  check_session, check_ids, create_message, list_messages, list_messages_page, search_messages,
}

module _ {S : Type 0} (env : Env S) (user_id session_id : Text) (e : Err) (p : Process S)
    (named : is_empty user_id ≡ false) (chosen : is_empty session_id ≡ false)
    (foreign : env.db.sessions.first (owned session_id user_id) p.outside
      ≡ (err e, p.outside)) where
  check_session-foreign :
      check_session env user_id session_id p ≡ (err (message (codes "session not found")), p)
  unfolding check_session Session.get_by_id_and_user_id call
  check_session-foreign = rw foreign refl

  -- When the database finds no session of this identifier for this user, and that search changes
  -- nothing, then creating a message with a content, listing, listing a page and searching all
  -- end with "session not found" and leave the process and everything outside as they were. The
  -- two identifiers are not empty.
  pub foreign_session-unchanged :
      (role content keyword : Text) (page page_size limit : ℤ)
      → is_empty content ≡ false
      → (create_message env user_id session_id role content p
          ≡ (err (message (codes "session not found")), p))
        × (list_messages env user_id session_id p ≡ (err (message (codes "session not found")), p))
        × (list_messages_page env user_id session_id page page_size p
            ≡ (err (message (codes "session not found")), p))
        × (search_messages env user_id session_id keyword limit p
            ≡ (err (message (codes "session not found")), p))
  unfolding create_message list_messages list_messages_page search_messages check_ids
  foreign_session-unchanged role content keyword page page_size limit filled = (
    rw (named, chosen, filled, check_session-foreign) refl,
    rw (named, chosen, check_session-foreign) refl,
    rw (named, chosen, check_session-foreign) refl,
    rw (named, chosen, check_session-foreign) refl,
  )
