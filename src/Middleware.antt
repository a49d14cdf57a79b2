-- ===== src/Middleware.antt =====
-- internal/middleware: what a handler in the chain of a request does. The HTTP framework, which
-- runs the chain, is a parameter of Middleware.Chain.
pub mod Auth
pub mod CozeKey
pub mod Chain
mod Tests
use go_agent_chat_server.Base.{
  ℕ, leb, Bool, List, [], ◌∷◌, ◌++◌, ◌==◌, Option, none, some, if◌then◌else◌,
}
use go_agent_chat_server.Base.Text.{Text, codes, is_empty}
use go_agent_chat_server.Base.Int.{ℤ, pos, leb_ℤ}
use go_agent_chat_server.Base.Decimal.{format_uint}
use go_agent_chat_server.Base.Exec.{Result, ok, err}
use go_agent_chat_server.Metrics.{
  Process, add, http_requests_total, http_errors_total, ip_rate_limit_checked_total,
  ip_rate_limit_blocked_total, ip_rate_limit_error_total,
}
use go_agent_chat_server.Queue.Event.{text}
use go_agent_chat_server.Cache.{Redis}
use go_agent_chat_server.Api.Code
use go_agent_chat_server.Api.Response.{Answer, Handler, RequestContext, text_or_empty}

-- A call of c.JSON: the status, and the code and the message of the response.
pub record Written : Type 0 where
  pub status : ℕ
  pub code : ℕ
  pub message : Text

-- A request on its way: what handlers read, what was written so far, the X-Request-ID of the
-- response, and the process.
pub record Exchange (S : Type 0) : Type 0 where
  pub context : RequestContext
  pub written : List Written
  pub response_id : Text
  pub process : Process S

-- What comes back from c.Next: a panic keeps what was done.
pub data Outcome (S : Type 0) : Type 0 where
  returned : Exchange S → Outcome S
  panicked : Exchange S → Outcome S

-- What a handler of the chain does: it returns without a call of c.Next, or calls c.Next once and
-- ends with a function of what comes back.
pub data Turn (S : Type 0) : Type 0 where
  stops : Exchange S → Turn S
  passes : Exchange S → (Outcome S → Outcome S) → Turn S

abbrev pub Middleware : Type 0 → Type 0
Middleware S = Exchange S → Turn S

-- c.Response.StatusCode() after the last call of c.JSON, 0 before the first.
unfoldable pub status_code : ℕ → List Written → ℕ
status_code status [] = status
status_code status (w ∷ ws) = status_code w.status ws

-- The random bytes, in hexadecimal, are missing when rand.Read fails.
unfoldable pub request_id_from : ℕ → Option Text → Text
unfolding codes format_uint
request_id_from now none = format_uint now
request_id_from now (some hex) = format_uint now ++ codes "-" ++ hex

module _ {S : Type 0} where
  -- c.JSON
  unfoldable pub write_json : ℕ → ℕ → Text → Exchange S → Exchange S
  write_json status code message x = record x {
    written = x.written ++ record { status = status; code = code; message = message } ∷ [];
  }

  -- c.Next as the last call.
  abbrev pub next : Exchange S → Turn S
  next x = passes x (λ y. y)

  -- A handler of internal/api as the last of the chain.
  unfoldable pub endpoint : {D : Type 0} → (RequestContext → Handler S D) → Middleware S
  unfolding write_json
  endpoint handler x =
      let (answer, q) = handler x.context x.process in
      stops (
        write_json answer.status answer.response.code answer.response.message
          (record x { process = q }))

  unfoldable pub recover : Outcome S → Outcome S
  unfolding codes write_json text_or_empty
  recover (returned x) = returned x
  recover (panicked x) = returned (
      write_json 500 Code.internal
        (codes "internal server error, request_id=" ++ text_or_empty x.context.request_id) x)

  unfoldable pub recovery : Middleware S
  unfolding recover
  recovery x = passes x recover

  unfoldable pub count_status : ℕ → Process S → Process S
  unfolding add
  count_status status p =
      let q = (add http_requests_total (pos 1) p).1 in
      let status = if status == 0 then 200 else status in
      if leb 400 status then (add http_errors_total (pos 1) q).1 else q

  -- A panic passes over what stands behind c.Next.
  unfoldable pub count_request : Outcome S → Outcome S
  unfolding count_status status_code
  count_request (returned x) =
      returned (record x { process = count_status (status_code 0 x.written) x.process })
  count_request (panicked x) = panicked x

  -- Without the line of the log.
  unfoldable pub logger : Middleware S
  unfolding count_request
  logger x = passes x count_request

  unfoldable pub new_request_id : (S → Option Text × S) → (S → ℕ) → S → Text × S
  unfolding request_id_from
  new_request_id random now s = let (bytes, t) = random s in (request_id_from (now t) bytes, t)

  unfoldable pub with_request_id : Text → Exchange S → Exchange S
  with_request_id id x = record x {
    context = record x.context { request_id = some (text id) };
    response_id = id;
  }

  unfoldable pub request_id : (S → Option Text × S) → (S → ℕ) → Middleware S
  unfolding codes new_request_id with_request_id
  request_id random now x =
      let given = x.context.header (codes "X-Request-ID") in
      let (id, s) = new_request_id random now x.process.outside in
      if is_empty given
      then next (with_request_id id (record x { process = record x.process { outside = s } }))
      else next (with_request_id given x)

  unfoldable pub with_process : Exchange S → Process S → Exchange S
  with_process x p = record x { process = p }

  -- Behind the script.
  unfoldable pub check_count : ℤ → Exchange S → Result ℕ → Turn S
  unfolding codes add with_process write_json
  check_count max_requests x (err e) = stops (
      write_json 500 Code.internal (codes "rate limit error")
        (with_process x (add ip_rate_limit_error_total (pos 1) x.process).1))
  check_count max_requests x (ok count) =
      if leb_ℤ (pos count) max_requests
      then next x
      else stops (
          write_json 429 Code.too_many_requests (codes "too many requests")
            (with_process x (add ip_rate_limit_blocked_total (pos 1) x.process).1))

  -- `window` is in milliseconds.
  unfoldable pub rate_limit : Redis S → ℤ → ℕ → Middleware S
  unfolding codes add with_process check_count
  rate_limit redis max_requests window x =
      let p = (add ip_rate_limit_checked_total (pos 1) x.process).1 in
      let (result, s) =
        redis.incr_window (codes "rate_limit:ip:" ++ x.context.client_ip) window p.outside in
      check_count max_requests (with_process x (record p { outside = s })) result
