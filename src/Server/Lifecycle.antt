-- ===== src/Server/Lifecycle.antt =====
-- The two coroutines of a `VlessConnection` and the flags by which it is known when the connection
-- may be destroyed: src/server/vless_connection.cpp and the end of `targetTask` in
-- src/server/vless_connection_target_task.cpp.
pub mod Closed
use cppvless.Common.{Bool, true, false, not, ◌&&◌, if◌then◌else◌, ◌≡◌}

-- `client_running` and `target_running` say where the coroutines are: started, and not at their
-- end. A file descriptor is known by whether it is open, and by whether `shutdown` and `cancelFd` were
-- called. A connection that is destroyed takes the frames of its coroutines with it.
pub record VlessConnection : Type 0 where
  pub client_read_done : Bool
  pub target_read_done : Bool
  pub target_task_started : Bool
  pub closed : Bool
  pub client_open : Bool
  pub target_open : Bool
  pub client_shut : Bool
  pub target_shut : Bool
  pub client_running : Bool
  pub target_running : Bool
  pub client_cancelled : Bool
  pub target_cancelled : Bool
  pub destroyed : Bool

-- `start()` has been called on an accepted socket.
abbrev pub started_connection : VlessConnection
started_connection = record {
  client_read_done = false;
  target_read_done = false;
  target_task_started = false;
  closed = false;
  client_open = true;
  target_open = false;
  client_shut = false;
  target_shut = false;
  client_running = true;
  target_running = false;
  client_cancelled = false;
  target_cancelled = false;
  destroyed = false;
}

unfoldable pub finish_client_task : VlessConnection → VlessConnection
finish_client_task c =
    let done = record c { client_read_done = true } in
    if not c.target_task_started
    then record done { closed = true }
    else if not c.target_read_done && c.target_open
    then record done { target_shut = true }
    else record done { closed = true }

-- The end of `clientTask`, which every path reaches.
unfoldable pub end_client_task : VlessConnection → VlessConnection
unfolding finish_client_task
end_client_task c = record (finish_client_task c) { client_running = false }

-- `connectTarget` has a socket.
unfoldable pub connect_target : VlessConnection → VlessConnection
connect_target c = record c { target_open = true }

unfoldable pub start_target_task : VlessConnection → VlessConnection
start_target_task c = record c { target_task_started = true; target_running = true }

abbrev interrupt_client : VlessConnection → VlessConnection
interrupt_client c =
    if not c.client_read_done && c.client_open then record c { client_shut = true } else c

-- The end of `targetTask`, after the relay or an exception.
unfoldable pub end_target_task : VlessConnection → VlessConnection
end_target_task c =
    let done = interrupt_client (record c { target_read_done = true }) in
    record done {
      closed = if done.client_read_done && done.target_read_done then true else done.closed;
      target_running = false;
    }

-- `doClose`, which only the destructor calls: the operations on the open descriptors are cancelled,
-- and then these are closed.
unfoldable pub cancel_fds : VlessConnection → VlessConnection
cancel_fds c = record c {
  client_cancelled = if c.client_open then true else c.client_cancelled;
  target_cancelled = if c.target_open then true else c.target_cancelled;
}

unfoldable pub do_close : VlessConnection → VlessConnection
unfolding cancel_fds
do_close c = record (cancel_fds (record c { closed = true })) {
  client_open = false;
  target_open = false;
}

-- The destructor. A coroutine that is suspended stays at its place, and never goes on.
unfoldable pub destroy : VlessConnection → VlessConnection
unfolding do_close
destroy c = record (do_close c) { destroyed = true }

-- What may happen next. The client's coroutine connects and starts the other one at most once. A
-- round of the event loop destroys a connection that is closed, and its end destroys all of them.
pub data Step : VlessConnection → VlessConnection → Type 0 where
  connects :
      {c : VlessConnection}
      → c.destroyed ≡ false
      → c.client_running ≡ true
      → c.target_task_started ≡ false
      → Step c (connect_target c)
  starts :
      {c : VlessConnection}
      → c.destroyed ≡ false
      → c.client_running ≡ true
      → c.target_open ≡ true
      → c.target_task_started ≡ false
      → Step c (start_target_task c)
  client_ends :
      {c : VlessConnection}
      → c.destroyed ≡ false
      → c.client_running ≡ true
      → Step c (end_client_task c)
  target_ends :
      {c : VlessConnection}
      → c.destroyed ≡ false
      → c.target_running ≡ true
      → Step c (end_target_task c)
  swept : {c : VlessConnection} → c.destroyed ≡ false → c.closed ≡ true → Step c (destroy c)
  cleared : {c : VlessConnection} → c.destroyed ≡ false → Step c (destroy c)

pub data Reachable : VlessConnection → Type 0 where
  begins : Reachable started_connection
  steps : {c c' : VlessConnection} → Reachable c → Step c c' → Reachable c'
