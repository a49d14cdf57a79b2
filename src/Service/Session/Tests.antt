-- ===== src/Service/Session/Tests.antt =====
-- Sessions of two users in an in-memory world.
use go_agent_chat_server.Base.{◌≡◌, not, List, [], ◌∷◌, select}
use go_agent_chat_server.Base.Text.{codes, text_eq}
use go_agent_chat_server.Base.Exec.Keeps.{Keeps}
use go_agent_chat_server.Model
use go_agent_chat_server.World.{World}

abbrev session : Model.Session
session = record { id = codes "s"; user_id = codes "u"; title = []; created_at = 0; updated_at = 0 }

-- The rows of the users but "v".
abbrev others : List Model.Session → List Model.Session
others = select (λ row. not (text_eq row.user_id (codes "v")))

abbrev Kept : World → Type 0
Kept w = others w.sessions ≡ session ∷ []
