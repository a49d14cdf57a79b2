-- ===== src/Service/Message/Refinement.antt =====
-- internal/service/message_service.go: CreateMessage and ListMessages of one session against a list
-- of entries without a cache.
use go_agent_chat_server.Base.{◌≡◌, List, [], ◌∷◌, ◌++◌, Option}
use go_agent_chat_server.Base.Text.{Text}
use go_agent_chat_server.Base.Exec.{Exec, Result, ok, err, pure, ◌>>=◌}
use go_agent_chat_server.Base.Exec.Leads.{Ends, Leads, Leads-bind}
use go_agent_chat_server.Model
use go_agent_chat_server.Metrics.{Process}
use go_agent_chat_server.Service.{Env}
use go_agent_chat_server.Service.Message.{create_message, list_messages}
use go_agent_chat_server.Service.Message.Views.{Entry, entry, entries, Written, Views, Shows}
use go_agent_chat_server.Service.Message.Coherence.{list_messages-Leads}
use go_agent_chat_server.Service.Message.Creation.{create_message-Leads}

-- A request for one session, with the user who makes it.
pub data Op : Type 0 where
  create_op : Text → Text → Text → Op
  list_op : Text → Op

pub data Answer : Type 0 where
  created : Model.Message → Answer
  listed : List Model.Message → Answer

-- What the service is for, without a cache: `Explains l ops answers` says that a list of entries
-- `l` answers the requests so. A created message has what was asked for and goes to the end, a list
-- shows all entries, an error changes nothing.
module _ {S : Type 0} (env : Env S) (session_id : Text) where
  unfoldable pub Explains : List Entry → List Op → List (Result Answer) → Type 0
  Explains l [] [] = Unit {0}
  Explains l (op ∷ ops) (err e ∷ rest) = Explains l ops rest
  Explains l (create_op user_id role content ∷ ops) (ok (created m) ∷ rest) =
      Written env session_id role content m × Explains (l ++ entry m ∷ []) ops rest
  Explains l (list_op user_id ∷ ops) (ok (listed ms) ∷ rest) =
      (entries ms ≡ l) × Explains l ops rest
  Explains l (create_op user_id role content ∷ ops) (ok (listed ms) ∷ rest) = ⊥
  Explains l (list_op user_id ∷ ops) (ok (created m) ∷ rest) = ⊥
  Explains l [] (r ∷ rest) = ⊥
  Explains l (op ∷ ops) [] = ⊥

module _ {S : Type 0} (env : Env S) (session_id : Text) where
  unfoldable pub serve : Op → Exec (Process S) Answer
  serve (create_op user_id role content) = do
    m ← create_message env user_id session_id role content
    pure (created m)
  serve (list_op user_id) = do ms ← list_messages env user_id session_id; pure (listed ms)

  -- The answers to a sequence of requests.
  unfoldable pub serve_all : List Op → Process S → List (Result Answer)
  unfolding serve
  serve_all [] p = []
  serve_all (op ∷ ops) p = let (r, q) = serve op p in r ∷ serve_all ops q

module _ {S : Type 0} (env : Env S) (session_id : Text)
    (Has : List Entry → Option Text → S → Type 0) (views : Views env session_id Has) where
  -- What an answer leaves of the entries.
  After : List Entry → Op → Answer → Process S → Type 0
  After l (create_op user_id role content) (created m) p =
      Written env session_id role content m × Shows env Has (l ++ entry m ∷ []) p.outside
  After l (list_op user_id) (listed ms) p = (entries ms ≡ l) × Shows env Has l p.outside
  After l (create_op user_id role content) (listed ms) p = ⊥
  After l (list_op user_id) (created m) p = ⊥

  serve-Leads :
      (op : Op) (l : List Entry)
      → Leads
          (λ (p : Process S). Shows env Has l p.outside)
          (serve env session_id op)
          (After l op)
          (λ p. Shows env Has l p.outside)
  unfolding serve After
  serve-Leads (create_op user_id role content) l =
      Leads-bind _ _ (create_message-Leads env session_id Has views l user_id role content)
        (λ m. record { at = λ p h. h })
  serve-Leads (list_op user_id) l =
      Leads-bind _ _ (list_messages-Leads env session_id Has views l user_id)
        (λ ms. record { at = λ p h. h })

  next-Explains :
      (l : List Entry) (op : Op) (r : Result Answer × Process S) (ops : List Op)
      → ((k : List Entry) (q : Process S)
          → Shows env Has k q.outside
          → Explains env session_id k ops (serve_all env session_id ops q))
      → Ends (After l op) (λ p. Shows env Has l p.outside) r
      → Explains env session_id l (op ∷ ops) (r.0 ∷ serve_all env session_id ops r.1)
  unfolding Explains After
  next-Explains l op (err e, q) ops rest h = rest l q h
  next-Explains l (create_op user_id role content) (ok (created m), q) ops rest (w, h) =
      (w, rest (l ++ entry m ∷ []) q h)
  next-Explains l (list_op user_id) (ok (listed ms), q) ops rest (e, h) = (e, rest l q h)
  next-Explains l (create_op user_id role content) (ok (listed ms), q) ops rest h = elim h [ ]
  next-Explains l (list_op user_id) (ok (created m), q) ops rest h = elim h [ ]

  -- Whatever requests come one after another, and in whatever order, the message service answers
  -- them like a plain list of entries: the cache never shows an old list, a created message is in
  -- every later list, and a request that fails adds nothing. It holds from every state whose cache
  -- is coherent, and where the calls of the database, Redis and JSON keep `Views`: a deletion in
  -- Redis is made.
  pub serve_all-Explains :
      (l : List Entry) (ops : List Op) (p : Process S)
      → Shows env Has l p.outside
      → Explains env session_id l ops (serve_all env session_id ops p)
  unfolding Explains serve_all
  serve_all-Explains l [] p h = tt
  serve_all-Explains l (op ∷ ops) p h =
      next-Explains l op (serve env session_id op p) ops (λ k q. serve_all-Explains k ops q)
        ((serve-Leads op l).at p h)
