-- ===== src/Tests/Server.antt =====
-- The life of a connection and the UDP relay (src/server).
use cppvless.Common.{
  equal, ◌≡◌, refl, arith, List, [], ◌∷◌, ◌++◌, Bytes, Bool, true, false, ℕ, ◌+◌, ◌==◌,
  if◌then◌else◌, All, Option, none, some,
}
use cppvless.Server.UdpRelay.{relay}
use cppvless.Server.UdpRelay.Segments.{relay-frames, received_all}
use cppvless.Vless.Protocol.{default_request, tcp, domain, Request}
use cppvless.Server.Connect.{SockAddr, inet, unsupported}
use cppvless.Server.Connect
use cppvless.Server.Connect.Chosen.{IsChosen, connect_target-IsChosen}
use cppvless.Server.Session.{
  Outcomes, sends_response, connects_target, dispatch, run_tcp_session, setup_vision,
  setup_encryption,
}
use cppvless.Server.Session.Phases.{IsAllowed, dispatch-IsAllowed}
use cppvless.Server.Lifecycle.{
  VlessConnection, started_connection, connect_target, start_target_task, end_client_task,
}
use cppvless.Server.EventLoop.{
  Completion, accepts, goes_on, stops, started_loop, descriptors, rounds, run,
}
use cppvless.Server.EventLoop.Released.{count, rounds-released}

-- A target that keeps what is written.
abbrev write : List Bytes → Bytes → Bool × List Bytes
write t d = (true, t ++ (d ∷ []))

abbrev packets : List Bytes
packets = (1 ∷ 2 ∷ []) ∷ [] ∷ (3 ∷ []) ∷ []

abbrev reads : List Bytes
reads = (2 ∷ 0 ∷ []) ∷ (0 ∷ 0 ∷ 1 ∷ []) ∷ (3 ∷ []) ∷ []

relay-frames_example :
    relay write (0 ∷ 2 ∷ 1 ∷ []) (received_all reads) [] ≡ (true, (1 ∷ 2 ∷ []) ∷ (3 ∷ []) ∷ [])
relay-frames_example =
    relay-frames write reads (0 ∷ 2 ∷ 1 ∷ []) packets [] (λ t d. refl)
      (omega arith, (omega arith, (omega arith, tt))) refl

-- The client's coroutine ends first.
abbrev half_closed : VlessConnection
half_closed = end_client_task (start_target_task (connect_target started_connection))

abbrev outcomes : Outcomes
outcomes = record {
  client_key = [];
  responded = true;
  connected = false;
  forwarded = false;
  relayed = false;
}

dispatch-IsAllowed_example : IsAllowed default_request tcp (sends_response ∷ connects_target ∷ [])
unfolding dispatch run_tcp_session setup_vision setup_encryption equal
dispatch-IsAllowed_example = dispatch-IsAllowed outcomes default_request tcp

-- A connection is known by whether it is closed, and there is none for the descriptor 9.
abbrev factory : ℕ → Option Bool
factory fd = if fd == 9 then none else some false

abbrev itself : Bool → Bool
itself b = b

abbrev rounds_given : List (List (Completion Bool))
rounds_given =
    (accepts (some 5) ∷ accepts (some 9) ∷ [])
    ∷ (goes_on 5 true ∷ accepts (some 6) ∷ [])
    ∷ (accepts (some 5) ∷ stops ∷ accepts none ∷ [])
    ∷ []

rounds-released_example :
    ((d : ℕ)
      → count d (run itself factory rounds_given).released
        ≡ count d (run itself factory rounds_given).accepted)
    × All (λ p. p.1 ≡ false) (rounds itself factory started_loop rounds_given).connections
    × ((d : ℕ)
        → count d (descriptors (rounds itself factory started_loop rounds_given).connections)
            + count d (rounds itself factory started_loop rounds_given).released
          ≡ count d (rounds itself factory started_loop rounds_given).accepted)
rounds-released_example = rounds-released itself factory rounds_given

-- The name has an address of another family in front.
abbrev answers : Bytes → ℕ → Bool → Option (List SockAddr)
answers name port datagrams = some (unsupported ∷ inet (1 ∷ 2 ∷ 3 ∷ 4 ∷ []) port ∷ [])

abbrev named : Request
named = record default_request { address = domain (97 ∷ []); port = 443 }

connect_target-IsChosen_example :
    IsChosen answers named (some 7) (Connect.connect_target answers named (some 7) true)
connect_target-IsChosen_example = connect_target-IsChosen answers named (some 7) true
