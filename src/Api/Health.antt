-- ===== src/Api/Health.antt =====
-- internal/api/health.go. The connections' pings are parameters.
use go_agent_chat_server.Base.{Bool, ◌&&◌, Option, none, some, if◌then◌else◌}
use go_agent_chat_server.Base.Text.{Text, codes, text_eq}
use go_agent_chat_server.Base.Exec.{Result, ok, err, error_text}
use go_agent_chat_server.Api.Code
use go_agent_chat_server.Api.Response.{Answer, Handler, answer, reply_success}

-- The two values that are reported, of "mysql" and of "redis".
pub record Checks : Type 0 where
  pub mysql : Text
  pub redis : Text

-- "status" and "checks"
pub record Readiness : Type 0 where
  pub status : Text
  pub checks : Checks

unfoldable pub check_text : Option (Result (Unit {0})) → Text
unfolding codes error_text
check_text none = codes "not_initialized"
check_text (some (ok x)) = codes "ok"
check_text (some (err e)) = error_text e

unfoldable pub all_ok : Checks → Bool
unfolding codes text_eq
all_ok checks = text_eq checks.mysql (codes "ok") && text_eq checks.redis (codes "ok")

-- The map of a readiness, or the checks alone.
pub data ReadyData : Type 0 where
  ready_data : Readiness → ReadyData
  checks_data : Checks → ReadyData

unfoldable pub ready_answer : Checks → Answer ReadyData
unfolding codes all_ok answer
ready_answer checks =
    if all_ok checks
    then answer 200 (record {
      code = Code.ok_code;
      message = codes "ok";
      result = some (ready_data (record { status = codes "ready"; checks = checks }));
    })
    else answer 503 (record {
      code = Code.internal;
      message = codes "service not ready";
      result = some (checks_data checks);
    })

-- A ping of a connection that was not initialised is none.
abbrev pub Ping : Type 0 → Type 0
Ping S = S → Option (Result (Unit {0})) × S

module _ {S : Type 0} where
  unfoldable pub health : Handler S Text
  unfolding codes reply_success
  health = reply_success (codes "healthy")

  unfoldable pub ready : Ping S → Ping S → Handler S ReadyData
  unfolding check_text ready_answer
  ready mysql redis p =
      let (mysql_check, s) = mysql p.outside in
      let (redis_check, t) = redis s in
      (
        ready_answer (record { mysql = check_text mysql_check; redis = check_text redis_check }),
        record p { outside = t },
      )
