-- ===== src/Llm/Stream/Tests.antt =====
-- A stream of two pieces, whose state is what the callback has been handed.
use go_agent_chat_server.Base.{◌≡◌, refl, [], ◌∷◌, ◌++◌, none}
use go_agent_chat_server.Base.Text.{Text, codes, text_eq}
use go_agent_chat_server.Base.Exec.{Exec, ok}
use go_agent_chat_server.Llm.{Http, OllamaClient}
use go_agent_chat_server.Llm.Stream.{stream_chat}
use go_agent_chat_server.Llm.Stream.Forwarding.{stream_chat-forwards}

-- A line is its content; an empty line ends the stream.
abbrev http : Http Text
http = record {
  encode = λ r. ok [];
  decode = λ line. ok (record { model = []; content = line; done = text_eq line (codes "end") });
  new_request = λ url. ok tt;
  send = λ url body s. (ok ([], 200), s);
  read_all = λ s. (ok [], s);
  send_stream = λ url body s. (
    ok (record {
      status = 200;
      body = [];
      lines = codes "hello " ∷ [] ∷ codes "end" ∷ codes "more" ∷ [];
      scan_error = none;
    }),
    s,
  );
}

abbrev client : OllamaClient
client = record { base_url = codes "http://o"; default_model = codes "m" }

abbrev on_delta : Text → Exec Text (Unit {0})
on_delta delta log = (ok tt, log ++ delta)

stream_test :
    stream_chat http on_delta client [] [] [] ≡ ((codes "helloend", none), codes "helloend")
unfolding stream_chat text_eq
stream_test = refl

stream_chat-forwards_example :
    (stream_chat http on_delta client [] [] []).1 ≡ (stream_chat http on_delta client [] [] []).0.0
stream_chat-forwards_example =
    stream_chat-forwards http on_delta (λ log. log) (λ delta log. refl) (λ url body log. refl)
      client [] [] [] refl
