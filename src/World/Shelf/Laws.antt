-- ===== src/World/Shelf/Laws.antt =====
-- The calls of the world with a cache keep the laws that the message service stands on.
use go_agent_chat_server.Base.{
  List, [], ◌∷◌, ◌++◌, none, ◌≡◌, refl, arith, ap, sym, ◌∙◌, Bool, false, inl, true, any, select,
  if◌then◌else◌,
}
use go_agent_chat_server.Base.Text.{codes, text_eq, text_eq_refl}
use go_agent_chat_server.Base.Exec.{ok, ok-injective}
use go_agent_chat_server.Model
use go_agent_chat_server.Store.Message.{of_session}
use go_agent_chat_server.Service.Message.Views.{Entry, entry, entries, Views}
use go_agent_chat_server.World.Shelf.{
  Shelf, read_messages, shelf_key, shelf_env, HasShelf, read_rows-write,
}

entries-append :
    (rows : List Model.Message) (row : Model.Message)
    → of_session (codes "s") row ≡ true
    → entries (select (of_session (codes "s")) (rows ++ row ∷ []))
      ≡ entries (select (of_session (codes "s")) rows) ++ entry row ∷ []
unfolding select
entries-append [] row e = rw e
entries-append (r ∷ rows) row e = ground (arith, entries-append rows row e)

emptied :
    (b : Bool) (l : List Entry) (s : Shelf)
    → HasShelf l none s
    → HasShelf l none (if b then record s { cached = none } else s)
emptied true l s (h, k) = (h, refl)
emptied false l s h = h

pub shelf_views : Views shelf_env (codes "s") HasShelf
unfolding any
shelf_views = record {
  session_first = λ rows l c. record { at = λ s h. h };
  new_id = λ l c. record { at = λ s h. h };
  message_create = λ row l c e. record {
    at = λ s (h, k). (
      entries-append s.messages row (rw e (text_eq_refl (codes "s")))
          ∙ ap (λ es. es ++ entry row ∷ []) h,
      k,
    );
  };
  message_find = λ l c. record { at = λ s h. (h.0, h) };
  redis_get = λ l c. record { at = λ s h. rw (text_eq_refl shelf_key) (inl h.1, h) };
  redis_set = λ value ttl l c. record { at = λ s h. rw (text_eq_refl shelf_key) (h.0, refl) };
  redis_del = λ l c s h. rw (text_eq_refl shelf_key) (h.0, refl);
  redis_del_others = λ keys l. record { at = λ s h. emptied (any (text_eq shelf_key) keys) l s h };
  redis_scan = λ cursor pattern l c. record { at = λ s h. h };
  unmarshal_marshal = λ ms value e.
      ap (λ t. ok (read_messages t)) (sym (ok-injective e)) ∙ ap ok (read_rows-write ms);
}
