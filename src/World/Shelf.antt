-- ===== src/World/Shelf.antt =====
-- A world with a cache that holds the list of one session's messages.
pub mod Laws
use go_agent_chat_server.Base.{
  ℕ, zero, suc, ◌+◌, if◌then◌else◌, any, select, false, length, take, drop, take-append,
  drop-append, map, List, [], ◌∷◌, ◌++◌, Option, none, some, ◌≡◌, refl, ap, ◌∙◌,
}
use go_agent_chat_server.Base.Text.{Text, codes, text_eq}
use go_agent_chat_server.Base.Exec.{message, ok, err}
use go_agent_chat_server.Model
use go_agent_chat_server.Cache.{Redis, Json}
use go_agent_chat_server.Cache.Message.{message_cache_key}
use go_agent_chat_server.Service.{Env}
use go_agent_chat_server.Store.{Table}
use go_agent_chat_server.Store.Message.{of_session}
use go_agent_chat_server.Service.Message.Views.{Entry, entries}
use go_agent_chat_server.World.{table}

-- A text, behind its length.
abbrev field : Text → Text → Text
field t rest = length t ∷ t ++ rest

abbrev read_field : Text → Text × Text
read_field [] = ([], [])
read_field (n ∷ t) = (take n t, drop n t)

abbrev read_number : Text → ℕ × Text
read_number [] = (0, [])
read_number (n ∷ t) = (n, t)

abbrev write_row : Model.Message → Text → Text
write_row m rest =
    field m.id
      (field m.session_id (field m.role (field m.content (m.created_at ∷ m.updated_at ∷ rest))))

abbrev read_row : Text → Model.Message × Text
read_row t =
    let (id, t) = read_field t in
    let (session_id, t) = read_field t in
    let (role, t) = read_field t in
    let (content, t) = read_field t in
    let (created_at, t) = read_number t in
    let (updated_at, t) = read_number t in
    (
      record {
        id = id;
        session_id = session_id;
        role = role;
        content = content;
        created_at = created_at;
        updated_at = updated_at;
      },
      t,
    )

read_row-write : (m : Model.Message) (rest : Text) → read_row (write_row m rest) ≡ (m, rest)
read_row-write m rest = rw (
  take-append m.id _,
  drop-append m.id _,
  take-append m.session_id _,
  drop-append m.session_id _,
  take-append m.role _,
  drop-append m.role _,
  take-append m.content _,
  drop-append m.content _,
)

abbrev write_rows : List Model.Message → Text
write_rows [] = []
write_rows (m ∷ ms) = write_row m (write_rows ms)

abbrev read_rows : ℕ → Text → List Model.Message
read_rows zero t = []
read_rows (suc n) t = let (m, rest) = read_row t in m ∷ read_rows n rest

read_rows-write : (ms : List Model.Message) → read_rows (length ms) (write_rows ms) ≡ ms
read_rows-write [] = refl
read_rows-write (m ∷ ms) =
    ap (λ (r : Model.Message × Text). r.0 ∷ read_rows (length ms) r.1)
      (read_row-write m (write_rows ms))
    ∙ ap (λ rest. m ∷ rest) (read_rows-write ms)

pub record Shelf : Type 0 where
  pub sessions : List Model.Session
  pub messages : List Model.Message
  pub cached : Option Text
  pub next_id : ℕ

abbrev pub shelf_key : Text
shelf_key = message_cache_key (codes "s")

abbrev shelf_redis : Redis Shelf
shelf_redis = record {
  get = λ key s. (ok (if text_eq shelf_key key then s.cached else none), s);
  set = λ key value ttl s.
      (ok tt, if text_eq shelf_key key then record s { cached = some value } else s);
  del = λ keys s. (ok tt, if any (text_eq shelf_key) keys then record s { cached = none } else s);
  scan = λ cursor pattern s. (ok ([], 0), s);
  incr_window = λ key window s. (ok 1, s);
}

abbrev read_messages : Text → List Model.Message
read_messages [] = []
read_messages (n ∷ t) = read_rows n t

abbrev shelf_json : Json
shelf_json = record {
  marshal_messages = λ ms. ok (length ms ∷ write_rows ms);
  unmarshal_messages = λ t. ok (read_messages t);
  marshal_page = λ page. err (message []);
  unmarshal_page = λ t. err (message []);
}

abbrev no_table : {R : Type 0} → Table Shelf R
no_table = table (λ s. []) (λ rows s. s)

abbrev pub shelf_env : Env Shelf
shelf_env = record {
  db = record {
    users = no_table;
    sessions = table (λ s. s.sessions) (λ rows s. record s { sessions = rows });
    messages = table (λ s. s.messages) (λ rows s. record s { messages = rows });
    docs = no_table;
    jobs = no_table;
    transaction = λ m. m;
    like = λ value pattern. false;
    now = λ s. 0;
  };
  redis = shelf_redis;
  json = shelf_json;
  new_id = λ s. (s.next_id ∷ [], record s { next_id = s.next_id + 1 });
  scan_rounds = 1;
}

-- The session's list in the table, and its text in the cache.
abbrev pub HasShelf : List Entry → Option Text → Shelf → Type 0
HasShelf l c s = (entries (select (of_session (codes "s")) s.messages) ≡ l) × (s.cached ≡ c)
