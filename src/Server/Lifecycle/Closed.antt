-- ===== src/Server/Lifecycle/Closed.antt =====
-- The flags of a connection against its coroutines (src/server/vless_connection.cpp).
use cppvless.Common.{true, false, not, ◌&&◌, ◌≡◌, ◌↔◌}
use cppvless.Server.Lifecycle.{VlessConnection}

-- Before the connection is destroyed.
record IsConsistent (c : VlessConnection) : Type 0 where
  client : c.client_read_done ≡ not c.client_running
  target : c.target_read_done ≡ (c.target_task_started && not c.target_running)
  closed : c.closed ≡ (not c.client_running && not c.target_running)
  opened : c.client_open ≡ true
  connected : c.target_task_started ≡ true → c.target_open ≡ true
  running : c.target_running ≡ true → c.target_task_started ≡ true
  wakes_target : c.target_running ≡ true → c.client_running ≡ false → c.target_shut ≡ true
  wakes_client :
      c.client_running ≡ true
      → c.target_task_started ≡ true
      → c.target_running ≡ false
      → c.client_shut ≡ true

-- When it has been destroyed.
record IsReleased (c : VlessConnection) : Type 0 where
  closed : c.closed ≡ true
  client_open : c.client_open ≡ false
  target_open : c.target_open ≡ false
  client_cancelled : c.client_cancelled ≡ true
  target_cancelled : c.target_task_started ≡ true → c.target_cancelled ≡ true

record IsKept (c : VlessConnection) : Type 0 where
  alive : c.destroyed ≡ false → IsConsistent c
  gone : c.destroyed ≡ true → IsReleased c

-- What holds of a connection at every moment of its life, and when it has been destroyed.
pub record IsManaged (c : VlessConnection) : Type 0 where
  -- It is marked for destruction exactly when neither coroutine runs.
  pub closed_iff :
      c.destroyed ≡ false
      → (c.closed ≡ true) ↔ ((c.client_running ≡ false) × (c.target_running ≡ false))
  -- A coroutine never stands on a descriptor that was closed.
  pub client_open : c.destroyed ≡ false → c.client_running ≡ true → c.client_open ≡ true
  pub target_open : c.destroyed ≡ false → c.target_running ≡ true → c.target_open ≡ true
  -- A coroutine whose partner has ended has been woken.
  pub target_woken :
      c.destroyed ≡ false
      → c.target_running ≡ true
      → c.client_running ≡ false
      → c.target_shut ≡ true
  pub client_woken :
      c.destroyed ≡ false
      → c.client_running ≡ true
      → c.target_task_started ≡ true
      → c.target_running ≡ false
      → c.client_shut ≡ true
  -- Destruction leaves no descriptor open, and the operations on them have been cancelled.
  pub released :
      c.destroyed ≡ true
      → (c.closed ≡ true)
        × (c.client_open ≡ false)
        × (c.target_open ≡ false)
        × (c.client_cancelled ≡ true)
        × (c.target_task_started ≡ true → c.target_cancelled ≡ true)
