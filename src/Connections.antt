-- ===== src/Connections.antt =====
-- internal/store/mysql.go and internal/cache/redis.go: the connections of a process. The client
-- libraries are parameters.
use go_agent_chat_server.Base.{ℕ}
use go_agent_chat_server.Base.Text.{Text, codes}
use go_agent_chat_server.Base.Int.{ℤ}
use go_agent_chat_server.Base.Exec.{Exec, fail, pure, on_error}
use go_agent_chat_server.Llm.{wrap}

-- gorm and database/sql: `G` is a database and `P` its pool of connections.
pub record Gorm (S G P : Type 0) : Type 0 where
  -- gorm.Open(mysql.Open(dsn))
  pub open_mysql : Text → Exec S G
  pub sql_db : G → Exec S P
  pub set_max_idle_conns : P → ℕ → S → S
  pub set_max_open_conns : P → ℕ → S → S
  -- in milliseconds
  pub set_conn_max_lifetime : P → ℕ → S → S
  -- AutoMigrate of the five tables
  pub auto_migrate : G → Exec S (Unit {0})

-- go-redis
pub record GoRedis (S R : Type 0) : Type 0 where
  -- an address, a password and the number of a database
  pub new_client : Text → Text → ℤ → S → R × S
  -- Ping with a context of three seconds
  pub ping : R → Exec S (Unit {0})

-- `if err != nil { return fmt.Errorf("…: %w", err) }`
abbrev pub or_wrap : {S A B : Type 0} → Text → Exec S A → (A → Exec S B) → Exec S B
or_wrap prefix m f = on_error m (λ e. fail (wrap prefix e)) f

module _ {S G P : Type 0} (gorm : Gorm S G P) where
  unfoldable pub set_pool : P → S → S
  set_pool pool s =
      gorm.set_conn_max_lifetime pool 3600000
        (gorm.set_max_open_conns pool 50 (gorm.set_max_idle_conns pool 10 s))

  -- The value that store.DB takes; on an error it stays as it was.
  unfoldable pub init_mysql : Text → Exec S G
  unfolding codes set_pool
  init_mysql dsn = or_wrap (codes "connect mysql failed: ") (gorm.open_mysql dsn) λ db.
      or_wrap (codes "get sql db failed: ") (gorm.sql_db db) λ pool s.
        or_wrap (codes "auto migrate failed: ") (gorm.auto_migrate db) (λ _. pure db)
          (set_pool pool s)

module _ {S R : Type 0} (go_redis : GoRedis S R) where
  -- The value that cache.RDB takes.
  unfoldable pub init_redis : Text → Text → ℤ → Exec S R
  unfolding codes
  init_redis addr password db s =
      let (rdb, t) = go_redis.new_client addr password db s in
      or_wrap (codes "connect redis failed: ") (go_redis.ping rdb) (λ _. pure rdb) t
