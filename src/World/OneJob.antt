-- ===== src/World/OneJob.antt =====
-- The row of the only job.
use go_agent_chat_server.Base.{refl, ap, sym, select}
use go_agent_chat_server.Base.Text.{codes, text_eq}
use go_agent_chat_server.Service.AsyncChat.Attempts.{HasRow}
use go_agent_chat_server.World.{one_job, only_row}

pub one_job-HasRow : HasRow one_job (codes "j") only_row
unfolding codes select text_eq
one_job-HasRow = record {
  first = λ s. refl;
  same_id = λ s. refl;
  updated =
      λ change s kept. ap (λ i. record (change (only_row s)) { id = i }) (sym (kept (only_row s)));
}
