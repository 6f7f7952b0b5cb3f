-- ===== src/Client/Lifecycle/Closed.antt =====
-- The flags of a connection of the client against its coroutines (src/client/socks5_connection.cpp).
use cppvless.Common.{true, false, not, ◌&&◌, ◌≡◌, ◌↔◌}
use cppvless.Client.Lifecycle.{Socks5Connection}

-- Before the connection is destroyed.
record IsConsistent (c : Socks5Connection) : Type 0 where
  client : c.app_read_done ≡ not c.client_running
  remote : c.remote_read_done ≡ (c.remote_task_started && not c.remote_running)
  closed : c.closed ≡ (not c.client_running && not c.remote_running)
  opened : c.app_open ≡ true
  connected : c.remote_task_started ≡ true → c.remote_open ≡ true
  running : c.remote_running ≡ true → c.remote_task_started ≡ true
  wakes_remote : c.remote_running ≡ true → c.client_running ≡ false → c.remote_shut ≡ true
  wakes_app :
      c.client_running ≡ true
      → c.remote_task_started ≡ true
      → c.remote_running ≡ false
      → c.app_shut ≡ true

-- When it has been destroyed.
record IsReleased (c : Socks5Connection) : Type 0 where
  closed : c.closed ≡ true
  app_open : c.app_open ≡ false
  remote_open : c.remote_open ≡ false
  relaying : c.relaying ≡ false
  app_cancelled : c.app_cancelled ≡ true
  remote_cancelled : c.remote_task_started ≡ true → c.remote_cancelled ≡ true

record IsKept (c : Socks5Connection) : Type 0 where
  alive : c.destroyed ≡ false → IsConsistent c
  gone : c.destroyed ≡ true → IsReleased c

-- What holds of a connection at every moment of its life, and when it has been destroyed.
pub record IsSafe (c : Socks5Connection) : Type 0 where
  -- It is marked for destruction exactly when neither coroutine runs.
  pub closed_iff :
      c.destroyed ≡ false
      → (c.closed ≡ true) ↔ ((c.client_running ≡ false) × (c.remote_running ≡ false))
  -- A coroutine never stands on a descriptor that was closed.
  pub app_open : c.destroyed ≡ false → c.client_running ≡ true → c.app_open ≡ true
  pub remote_open : c.destroyed ≡ false → c.remote_running ≡ true → c.remote_open ≡ true
  -- A coroutine whose partner has ended has been woken.
  pub remote_woken :
      c.destroyed ≡ false
      → c.remote_running ≡ true
      → c.client_running ≡ false
      → c.remote_shut ≡ true
  pub app_woken :
      c.destroyed ≡ false
      → c.client_running ≡ true
      → c.remote_task_started ≡ true
      → c.remote_running ≡ false
      → c.app_shut ≡ true
  -- Destruction leaves no descriptor open and no relay, and the operations on them have been cancelled.
  pub released :
      c.destroyed ≡ true
      → (c.closed ≡ true)
        × (c.app_open ≡ false)
        × (c.remote_open ≡ false)
        × (c.relaying ≡ false)
        × (c.app_cancelled ≡ true)
        × (c.remote_task_started ≡ true → c.remote_cancelled ≡ true)
