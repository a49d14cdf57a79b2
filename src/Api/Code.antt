-- ===== src/Api/Code.antt =====
-- internal/ecode: the codes of responses.
use go_agent_chat_server.Base.{ℕ}

abbrev pub ok_code : ℕ
ok_code = 0

abbrev pub invalid_request : ℕ
invalid_request = 40001

abbrev pub invalid_param : ℕ
invalid_param = 40002

abbrev pub missing_authorization : ℕ
missing_authorization = 40100

abbrev pub unauthorized : ℕ
unauthorized = 40101

abbrev pub invalid_token : ℕ
invalid_token = 40102

abbrev pub not_found : ℕ
not_found = 40401

abbrev pub too_many_requests : ℕ
too_many_requests = 42900

abbrev pub internal : ℕ
internal = 50001
