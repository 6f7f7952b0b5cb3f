-- ===== src/Server/EventLoop.antt =====
-- src/server/event_loop.cpp: the loop that accepts connections and destroys those that are closed.
-- `C` are the connections of the program that uses the loop, with the factory that makes them.
pub mod Released
use cppvless.Common.{
  ℕ, Bool, true, false, not, List, [], ◌∷◌, ◌++◌, ◌==◌, if◌then◌else◌, Option, none, some,
}

-- `accepting` is whether `acceptLoop` runs. `accepted` and `released` list the descriptors that
-- `accept` gave, and those that were closed, by the destruction of their connection or because
-- there is none.
pub record EventLoop (C : Type 0) : Type 0 where
  pub running : Bool
  pub accepting : Bool
  pub listen_open : Bool
  pub connections : List (ℕ × C)
  pub accepted : List ℕ
  pub released : List ℕ

abbrev pub started_loop : {C : Type 0} → EventLoop C
started_loop = record {
  running = true;
  accepting = true;
  listen_open = true;
  connections = [];
  accepted = [];
  released = [];
}

-- A completion: `accept` gave a descriptor or failed, or a connection went on. `stop` is called by
-- another thread.
pub data Completion (C : Type 0) : Type 0 where
  accepts : Option ℕ → Completion C
  goes_on : ℕ → C → Completion C
  stops : Completion C

-- `connections_[fd] = conn`, with the descriptor of a connection that it replaces.
unfoldable pub put_connection : {C : Type 0} → ℕ → C → List (ℕ × C) → List (ℕ × C) × List ℕ
put_connection fd c [] = ((fd, c) ∷ [], [])
put_connection fd c ((k, x) ∷ cs) =
    let (rest, gone) = put_connection fd c cs in
    if k == fd then ((k, c) ∷ cs, k ∷ []) else ((k, x) ∷ rest, gone)

unfoldable pub stop : {C : Type 0} → EventLoop C → EventLoop C
stop l = record l { running = false; listen_open = false }

unfoldable pub changed : {C : Type 0} → ℕ → C → List (ℕ × C) → List (ℕ × C)
changed fd c [] = []
changed fd c ((k, x) ∷ cs) =
    let rest = changed fd c cs in if k == fd then (k, c) ∷ cs else (k, x) ∷ rest

abbrev pub descriptors : {C : Type 0} → List (ℕ × C) → List ℕ
descriptors [] = []
descriptors ((k, c) ∷ cs) = k ∷ descriptors cs

module _ {C : Type 0} (factory : ℕ → Option C) where
  abbrev pub made : EventLoop C → ℕ → Option C → EventLoop C
  made l fd none = record l { released = fd ∷ l.released }
  made l fd (some c) =
      let (connections, gone) = put_connection fd c l.connections in
      record l { connections = connections; released = gone ++ l.released }

  -- A round of `acceptLoop`.
  unfoldable pub accept_round : EventLoop C → Option ℕ → EventLoop C
  accept_round l none = if l.running then l else record l { accepting = false }
  accept_round l (some fd) =
      made (record l { accepting = l.running; accepted = fd ∷ l.accepted }) fd (factory fd)

  unfoldable pub complete_one : EventLoop C → Completion C → EventLoop C
  unfolding accept_round stop changed put_connection
  complete_one l (accepts o) = if l.accepting then accept_round l o else l
  complete_one l (goes_on fd c) = record l { connections = changed fd c l.connections }
  complete_one l stops = stop l

  unfoldable pub process_completions : EventLoop C → List (Completion C) → EventLoop C
  unfolding complete_one
  process_completions l [] = l
  process_completions l (x ∷ xs) = process_completions (complete_one l x) xs

module _ {C : Type 0} (is_closed : C → Bool) where
  -- What `cleanupClosedConnections` keeps, and the descriptors of the others.
  unfoldable pub open_ones : List (ℕ × C) → List (ℕ × C)
  open_ones [] = []
  open_ones ((k, c) ∷ cs) = let rest = open_ones cs in if is_closed c then rest else (k, c) ∷ rest

  unfoldable pub closed_ones : List (ℕ × C) → List ℕ
  closed_ones [] = []
  closed_ones ((k, c) ∷ cs) = let rest = closed_ones cs in if is_closed c then k ∷ rest else rest

  unfoldable pub cleanup_closed_connections : EventLoop C → EventLoop C
  unfolding open_ones closed_ones
  cleanup_closed_connections l = record l {
    connections = open_ones l.connections;
    released = closed_ones l.connections ++ l.released;
  }

module _ {C : Type 0} (is_closed : C → Bool) (factory : ℕ → Option C) where
  -- The main loop, on the completions of its rounds; behind them nothing comes.
  unfoldable pub rounds : EventLoop C → List (List (Completion C)) → EventLoop C
  unfolding process_completions cleanup_closed_connections
  rounds l [] = l
  rounds l (xs ∷ xss) =
      let rest =
        rounds (cleanup_closed_connections is_closed (process_completions factory l xs)) xss in
      if l.running then rest else l

  -- `run`, from where the socket listens. All connections are destroyed at its end.
  unfoldable pub run : List (List (Completion C)) → EventLoop C
  unfolding rounds
  run xss =
      let l = rounds started_loop xss in
      record l {
        listen_open = false;
        connections = [];
        released = descriptors l.connections ++ l.released;
      }
