-- ===== src/Client/Lifecycle.antt =====
-- The two coroutines of a `Socks5Connection`, the flags by which the event loop knows when it may be
-- destroyed, and `doClose`: src/client/socks5_connection.cpp.
pub mod Closed
use cppvless.Common.{Bool, true, false, not, ◌&&◌, if◌then◌else◌, ◌≡◌}

-- `client_running` and `remote_running` say where the coroutines are: started, and not at their
-- end. A descriptor is known by whether it is open, and by whether `shutdown` and `cancelFd` were
-- called. `relaying` is whether there is a relay of datagrams that was not stopped. A connection that
-- is destroyed takes the frames of its coroutines with it.
pub record Socks5Connection : Type 0 where
  pub closed : Bool
  pub app_read_done : Bool
  pub remote_read_done : Bool
  pub remote_task_started : Bool
  pub app_open : Bool
  pub remote_open : Bool
  pub app_shut : Bool
  pub remote_shut : Bool
  pub relaying : Bool
  pub client_running : Bool
  pub remote_running : Bool
  pub app_cancelled : Bool
  pub remote_cancelled : Bool
  pub destroyed : Bool

-- `start()` has been called on an accepted socket.
abbrev pub started : Socks5Connection
started = record {
  closed = false;
  app_read_done = false;
  remote_read_done = false;
  remote_task_started = false;
  app_open = true;
  remote_open = false;
  app_shut = false;
  remote_shut = false;
  relaying = false;
  client_running = true;
  remote_running = false;
  app_cancelled = false;
  remote_cancelled = false;
  destroyed = false;
}

-- `remoteFd_ = handshake.remoteFd`
unfoldable pub tunnel_stands : Socks5Connection → Socks5Connection
tunnel_stands c = record c { remote_open = true }

unfoldable pub start_remote_task : Socks5Connection → Socks5Connection
start_remote_task c = record c { remote_task_started = true; remote_running = true }

unfoldable pub start_relay : Socks5Connection → Socks5Connection
start_relay c = record c { relaying = true }

unfoldable pub stop_relay : Socks5Connection → Socks5Connection
stop_relay c = record c { relaying = false }

unfoldable pub finish_client_task : Socks5Connection → Socks5Connection
finish_client_task c =
    let done = record c { app_read_done = true } in
    if not c.remote_task_started
    then record done { closed = true }
    else if not c.remote_read_done && c.remote_open
    then record done { remote_shut = true }
    else record done { closed = true }

-- The end of `clientTask`, which every path reaches.
unfoldable pub end_client_task : Socks5Connection → Socks5Connection
unfolding finish_client_task
end_client_task c = record (finish_client_task c) { client_running = false }

-- The end of `remoteTask`, behind its copy or an exception.
unfoldable pub end_remote_task : Socks5Connection → Socks5Connection
end_remote_task c = record c {
  remote_read_done = true;
  app_shut = if not c.app_read_done && c.app_open then true else c.app_shut;
  closed = if c.app_read_done then true else c.closed;
  remote_running = false;
}

-- `doClose`, which only the destructor calls: the operations on the open descriptors are cancelled,
-- the relay of datagrams is stopped, and then the descriptors are closed.
unfoldable pub cancel_fds : Socks5Connection → Socks5Connection
cancel_fds c = record c {
  app_cancelled = if c.app_open then true else c.app_cancelled;
  remote_cancelled = if c.remote_open then true else c.remote_cancelled;
}

unfoldable pub do_close : Socks5Connection → Socks5Connection
unfolding cancel_fds stop_relay
do_close c = record (stop_relay (cancel_fds (record c { closed = true }))) {
  remote_open = false;
  app_open = false;
}

-- The destructor. A coroutine that is suspended stays at its place, and never goes on.
unfoldable pub destroy : Socks5Connection → Socks5Connection
unfolding do_close
destroy c = record (do_close c) { destroyed = true }

-- What may happen next. The client's coroutine connects and starts the other one at most once. A
-- round of the event loop destroys a connection that is closed, and its end destroys all of them.
pub data Step : Socks5Connection → Socks5Connection → Type 0 where
  connects :
      {c : Socks5Connection}
      → c.destroyed ≡ false
      → c.client_running ≡ true
      → c.remote_task_started ≡ false
      → Step c (tunnel_stands c)
  starts :
      {c : Socks5Connection}
      → c.destroyed ≡ false
      → c.client_running ≡ true
      → c.remote_open ≡ true
      → c.remote_task_started ≡ false
      → Step c (start_remote_task c)
  associates :
      {c : Socks5Connection}
      → c.destroyed ≡ false
      → c.client_running ≡ true
      → Step c (start_relay c)
  dissociates :
      {c : Socks5Connection} → c.destroyed ≡ false → c.client_running ≡ true → Step c (stop_relay c)
  client_ends :
      {c : Socks5Connection}
      → c.destroyed ≡ false
      → c.client_running ≡ true
      → Step c (end_client_task c)
  remote_ends :
      {c : Socks5Connection}
      → c.destroyed ≡ false
      → c.remote_running ≡ true
      → Step c (end_remote_task c)
  swept : {c : Socks5Connection} → c.destroyed ≡ false → c.closed ≡ true → Step c (destroy c)
  cleared : {c : Socks5Connection} → c.destroyed ≡ false → Step c (destroy c)

pub data Reachable : Socks5Connection → Type 0 where
  begins : Reachable started
  steps : {c c' : Socks5Connection} → Reachable c → Step c c' → Reachable c'
