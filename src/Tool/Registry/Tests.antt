-- ===== src/Tool/Registry/Tests.antt =====
-- A run of both tools on one input, and the theorem at it.
use go_agent_chat_server.Base.{true, ◌≡◌, refl, [], ◌∷◌, some}
use go_agent_chat_server.Base.Text.{codes}
use go_agent_chat_server.Tool.Registry.{
  Tool, time_tool, failed, Matched, run_matched, run_matched-Matched,
}

abbrev broken : Tool
broken = record {
  name = codes "broken";
  should_use = λ input. true;
  call = λ input. failed (codes "no luck");
}

test_run :
    run_matched (some (broken ∷ time_tool (codes "noon") ∷ [])) (codes "What TIME is it")
    ≡ record { name = codes "broken"; output = codes "tool error: no luck" }
      ∷ record { name = codes "time"; output = codes "noon" }
      ∷ []
unfolding run_matched codes time_tool
test_run = refl

run_matched-Matched_example :
    Matched (codes "x") (broken ∷ []) (run_matched (some (broken ∷ [])) (codes "x"))
run_matched-Matched_example = run_matched-Matched (broken ∷ []) (codes "x")
