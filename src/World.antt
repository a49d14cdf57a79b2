-- ===== src/World.antt =====
-- A database, a cache and a model in memory, at which theorems are applied to concrete inputs.
pub mod Shelf
pub mod Whole
pub mod OneJob
use go_agent_chat_server.Base.{
  ℕ, ◌+◌, true, if◌then◌else◌, not, length, take, drop, select, map, List, [], ◌∷◌, ◌++◌, Option,
  none, some,
}
use go_agent_chat_server.Base.Text.{Text, codes, has_prefix}
use go_agent_chat_server.Base.Int.{pos_part, pos}
use go_agent_chat_server.Base.Exec.{message, record_not_found, Result, ok, err}
use go_agent_chat_server.Model
use go_agent_chat_server.Store.{Table, Database}
use go_agent_chat_server.Cache.{Redis, Json}
use go_agent_chat_server.Metrics.{Process}
use go_agent_chat_server.Service.{Env}
use go_agent_chat_server.Model.{ChatJobStatus}
use go_agent_chat_server.Service.Chat.{ChatEnv, ChatService}
use go_agent_chat_server.Service.AsyncChat.{AsyncChatService}
use go_agent_chat_server.Llm.{Http}

pub record World : Type 0 where
  pub users : List Model.User
  pub sessions : List Model.Session
  pub messages : List Model.Message
  pub docs : List Model.KnowledgeDoc
  pub jobs : List Model.ChatJob
  pub next_id : ℕ

abbrev pub first_of : {R : Type 0} → List R → Result R
first_of [] = err record_not_found
first_of (r ∷ rest) = ok r

abbrev limited : {R : Type 0} → Option ℕ → List R → List R
limited none rows = rows
limited (some n) rows = take n rows

abbrev table : {S R : Type 0} → (S → List R) → (List R → S → S) → Table S R
table rows with_rows = record {
  create = λ r s. (ok tt, with_rows (rows s ++ r ∷ []) s);
  first = λ w s. (first_of (select w (rows s)), s);
  find = λ q s. (ok (limited q.limit (drop (pos_part q.offset) (select q.where_row (rows s)))), s);
  count = λ w s. (ok (length (select w (rows s))), s);
  update = λ w f s.
      (ok (length (select w (rows s))), with_rows (map (λ r. if w r then f r else r) (rows s)) s);
  delete = λ w s. (ok (length (select w (rows s))), with_rows (select (λ r. not (w r)) (rows s)) s);
}

abbrev pub database : Database World
database = record {
  users = table (λ s. s.users) (λ rows s. record s { users = rows });
  sessions = table (λ s. s.sessions) (λ rows s. record s { sessions = rows });
  messages = table (λ s. s.messages) (λ rows s. record s { messages = rows });
  docs = table (λ s. s.docs) (λ rows s. record s { docs = rows });
  jobs = table (λ s. s.jobs) (λ rows s. record s { jobs = rows });
  transaction = λ m. m;
  like = λ value pattern. has_prefix value pattern;
  now = λ s. 1000000 + s.next_id;
}

-- Nothing is ever found in the cache.
abbrev redis : {S : Type 0} → Redis S
redis = record {
  get = λ key s. (ok none, s);
  set = λ key value ttl s. (ok tt, s);
  del = λ keys s. (ok tt, s);
  scan = λ cursor pattern s. (ok ([], 0), s);
  incr_window = λ key window s. (ok 1, s);
}

abbrev json : Json
json = record {
  marshal_messages = λ ms. ok [];
  unmarshal_messages = λ t. ok [];
  marshal_page = λ page. ok [];
  unmarshal_page = λ t. ok ([], 0);
}

abbrev pub env_of : {S : Type 0} → Database S → (S → Text × S) → Env S
env_of db new_id = record { db = db; redis = redis; json = json; new_id = new_id; scan_rounds = 1 }

abbrev pub env : Env World
env = env_of database (λ s. (s.next_id ∷ [], record s { next_id = s.next_id + 1 }))

abbrev http : {S : Type 0} → Http S
http = record {
  encode = λ r. err (message []);
  decode = λ t. err (message []);
  new_request = λ url. ok tt;
  send = λ url body s. (ok ([], 200), s);
  read_all = λ s. (ok [], s);
  send_stream = λ url body s. (err (message []), s);
}

abbrev pub chat_env_of : {S : Type 0} → Env S → ChatEnv S (Unit {0})
chat_env_of e = record {
  env = e;
  eino = record {
    new_chat_model = λ url model_name s. (ok tt, s);
    generate = λ m messages s. (ok (codes "hello"), s);
  };
  http = http;
  clock = λ s. [];
  slot_or_done = λ s. (ok tt, s);
  done = λ s. (message [], s);
  timer = λ ms s. (ok tt, s);
}

abbrev pub chat_env : ChatEnv World (Unit {0})
chat_env = chat_env_of env

abbrev pub chat_service : ChatService
chat_service = record {
  eino_runner = record { base_url = []; default_model = codes "m" };
  ollama_client = record { base_url = []; default_model = codes "m" };
  max_concurrent_llm = 2;
  user_llm_rate_limit = pos 0;
  user_llm_rate_window = pos 1000;
  tool_registry = λ clock. none;
}

abbrev pub empty_world : World
empty_world = record { users = []; sessions = []; messages = []; docs = []; jobs = []; next_id = 7 }

abbrev pub process : {S : Type 0} → S → Process S
process w = record { counters = λ c. pos 0; llm_slots = 0; publishing = []; outside = w }

abbrev pub service : {S : Type 0} → AsyncChatService S
service = record {
  chat_service = chat_service;
  enabled = true;
  publish_chat_task = λ task p. (ok tt, p);
  max_retry = 3;
}

abbrev pub job : ChatJobStatus → ℕ → Model.ChatJob
job status retry_count = record {
  id = codes "j";
  user_id = codes "u";
  session_id = codes "s";
  model = codes "m";
  status = status;
  request_text = codes "hi";
  user_message_id = codes "1";
  answer_text = [];
  error_message = [];
  retry_count = retry_count;
  assistant_message_id = [];
  started_at = 0;
  finished_at = 0;
  created_at = 5;
  updated_at = 5;
}

abbrev pub stored : Model.ChatJob → Process World
stored row = process (record empty_world { jobs = row ∷ [] })

-- A world whose state is one job, under the identifier "j"; every other table is empty.
abbrev pub only_row : Model.ChatJob → Model.ChatJob
only_row s = record s { id = codes "j" }

abbrev no_rows : {R : Type 0} → Table Model.ChatJob R
no_rows = table (λ s. []) (λ rows s. s)

abbrev pub one_job : ChatEnv Model.ChatJob (Unit {0})
one_job = chat_env_of (
    env_of
      (record {
        users = no_rows;
        sessions = no_rows;
        messages = no_rows;
        docs = no_rows;
        jobs = record {
          create = λ r s. (ok tt, s);
          first = λ w s. (first_of (select w (only_row s ∷ [])), s);
          find = λ q s. (ok (select q.where_row (only_row s ∷ [])), s);
          count = λ w s. (ok (length (select w (only_row s ∷ []))), s);
          update = λ w f s. (
            ok (length (select w (only_row s ∷ []))),
            if w (only_row s) then f (only_row s) else s,
          );
          delete = λ w s. (ok 0, s);
        };
        transaction = λ m. m;
        like = λ value pattern. has_prefix value pattern;
        now = λ s. 0;
      })
      (λ s. ([], s)))
