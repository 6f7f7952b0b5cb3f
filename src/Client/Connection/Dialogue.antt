-- ===== src/Client/Connection/Dialogue.antt =====
-- What a session of the client says to the application, and when it relays
-- (src/client/socks5_connection.cpp).
use cppvless.Common.{
  ℕ, ◌≡◌, refl, sym, ap, ◌⊎◌, inl, inr, Bool, true, false, List, [], ◌∷◌, ◌++◌, Bytes, is_empty,
  get_or, ◌==◌, if◌then◌else◌, Option, none, some, Result, ok, err, codes,
}
use cppvless.Common.Int.{is_positive}
use cppvless.Coro.BufferedStream.{RecvResult, UringBufferedStream}
use cppvless.Coro.BufferedStream.Laws.{uring}
use cppvless.Coro.AsyncStream.{SendResult, write_full, copy_stream}
use cppvless.Socks5.Protocol.{
  Command, connect, bind, udp_associate, other, Request, Socks5Error, reply_head, encode_reply,
}
use cppvless.Socks5.Parser.{read_request}
use cppvless.Client.Connection.{
  Environment, Message, Done, ends_with, relays, greeting_response, success, general_failure,
  connection_refused, command_not_supported, socks_reply, last_reply, forwards, tunnelled,
  connected, associated, bound, dispatched, requested, greeted, client_task,
}

-- There is a tunnel, or a socket for datagrams.
abbrev pub IsAvailable : Environment → Type 0
IsAvailable env =
    ((remaining : Bytes) × (env.handshake ≡ some remaining))
    ⊎ ((port : ℕ) × (env.udp_port ≡ some port))

-- The reply to the request, written or not, has the code for success.
abbrev pub reports_success : List Message → Bool
reports_success [] = false
reports_success (m ∷ []) = false
reports_success (m ∷ (reply, w) ∷ ms) = get_or reply 1 1 == success

abbrev pub is_unwritten : List Message → Bool
is_unwritten [] = false
is_unwritten ((m, true) ∷ ms) = is_unwritten ms
is_unwritten ((m, false) ∷ ms) = true

abbrev pub forwarded : Bytes → List Message
forwarded remaining = if is_empty remaining then [] else (remaining, true) ∷ []

-- The only message so far is the answer to the greeting.
abbrev greeted_with : List Message
greeted_with = (greeting_response, true) ∷ []

module _ (inet_pton4 inet_pton6 : Bytes → Option Bytes) where
  abbrev reply_of : ℕ → Bytes → ℕ → Result Socks5Error Bytes
  reply_of = socks_reply inet_pton4 inet_pton6

  -- How a session may go.
  pub data IsOrderly (env : Environment) : Done → Type 0 where
    -- It ends without relaying; success was reported only where something was there, and then a
    -- message could not be written.
    over :
        {ms : List Message}
        → (reports_success ms ≡ true → IsAvailable env × (is_unwritten ms ≡ true))
        → IsOrderly env (ends_with ms)
    -- The tunnel stands, and success and what came too early were written before.
    tunnels :
        (reads : List RecvResult) {remaining reply : Bytes}
        → env.handshake ≡ some remaining
        → socks_reply inet_pton4 inet_pton6 success (codes "0.0.0.0") 0 ≡ ok reply
        → IsOrderly env (record {
          messages = (greeting_response, true) ∷ (reply, true) ∷ forwarded remaining;
          relayed = (copy_stream reads env.tunnel_sends).taken;
          remote_started = true;
          udp_started = false;
        })
    -- The socket is bound, and its address was written before.
    associates :
        {port : ℕ} {reply : Bytes}
        → env.udp_port ≡ some port
        → socks_reply inet_pton4 inet_pton6 success (codes "127.0.0.1") port ≡ ok reply
        → IsOrderly env (record {
          messages = (greeting_response, true) ∷ (reply, true) ∷ [];
          relayed = [];
          remote_started = false;
          udp_started = true;
        })

  -- Where a test decides, the messages that tell its outcome are known.
  IsOrderly-if :
      {env : Environment} (b : Bool) (x y : Bool → Done)
      → IsOrderly env (x true)
      → IsOrderly env (y false)
      → IsOrderly env (if b then x b else y b)
  IsOrderly-if true x y h k = h
  IsOrderly-if false x y h k = k

  head_code :
      (code : ℕ) (bound_to : Result Socks5Error Bytes) (reply : Bytes)
      → reply_head inet_pton4 inet_pton6 code bound_to ≡ ok reply
      → get_or reply 1 1 ≡ code
  head_code code (ok b) reply e =
      let written : 0x05 ∷ code ∷ 0x00 ∷ b ≡ reply = cc in sym (ap (λ m. get_or m 1 1) written)
  head_code code (err x) reply e = cc

  reply_code :
      (code : ℕ) (ip : Bytes) (port : ℕ) (reply : Bytes)
      → socks_reply inet_pton4 inet_pton6 code ip port ≡ ok reply
      → get_or reply 1 1 ≡ code
  unfolding socks_reply encode_reply
  reply_code code ip port reply e = head_code code _ reply e

  last_reply-IsOrderly :
      (env : Environment) (sends : List SendResult) (code : ℕ) (ip : Bytes) (port : ℕ)
      (r : Result Socks5Error Bytes)
      → (code == success) ≡ false
      → socks_reply inet_pton4 inet_pton6 code ip port ≡ r
      → IsOrderly env (last_reply inet_pton4 inet_pton6 sends greeted_with r)
  unfolding last_reply
  last_reply-IsOrderly env sends code ip port (err e) n h = over (λ s. cc)
  last_reply-IsOrderly env sends code ip port (ok reply) n h = over (λ s. absurd (never s))
    where
      never : (get_or reply 1 1 == success) ≡ true → ⊥
      never s =
          let same : (get_or reply 1 1 == success) ≡ (code == success) =
            ap (λ c. c == success) (reply_code code ip port reply h) in
          cc

  forwards-IsOrderly :
      (env : Environment) (reads : List RecvResult) (sends : List SendResult)
      (remaining reply : Bytes)
      → env.handshake ≡ some remaining
      → socks_reply inet_pton4 inet_pton6 success (codes "0.0.0.0") 0 ≡ ok reply
      → IsOrderly env (
          forwards inet_pton4 inet_pton6 env reads sends remaining
            (greeted_with ++ (reply, true) ∷ []))
  unfolding forwards relays
  forwards-IsOrderly env reads sends [] reply h g = tunnels reads h g
  forwards-IsOrderly env reads sends (b ∷ bs) reply h g =
      IsOrderly-if (is_positive (write_full sends (b ∷ bs)).result)
        (λ w.
          relays inet_pton4 inet_pton6 env reads (greeted_with ++ (reply, true) ∷ (b ∷ bs, w) ∷ []))
        (λ w. ends_with (greeted_with ++ (reply, true) ∷ (b ∷ bs, w) ∷ [])) (tunnels reads h g)
        (over (λ s. (inl (b ∷ bs, h), refl)))

  tunnelled-IsOrderly :
      (env : Environment) (reads : List RecvResult) (sends : List SendResult) (remaining : Bytes)
      (r : Result Socks5Error Bytes)
      → env.handshake ≡ some remaining
      → socks_reply inet_pton4 inet_pton6 success (codes "0.0.0.0") 0 ≡ r
      → IsOrderly env (tunnelled inet_pton4 inet_pton6 env reads sends remaining greeted_with r)
  unfolding tunnelled
  tunnelled-IsOrderly env reads sends remaining (err e) h g = over (λ s. cc)
  tunnelled-IsOrderly env reads sends remaining (ok reply) h g =
      let w = write_full sends reply in
      IsOrderly-if (is_positive w.result)
        (λ b.
          forwards inet_pton4 inet_pton6 env reads w.sends remaining
            (greeted_with ++ (reply, b) ∷ []))
        (λ b. ends_with (greeted_with ++ (reply, b) ∷ []))
        (forwards-IsOrderly env reads w.sends remaining reply h g)
        (over (λ s. (inl (remaining, h), refl)))

  associated-IsOrderly :
      (env : Environment) (sends : List SendResult) (port : ℕ) (r : Result Socks5Error Bytes)
      → env.udp_port ≡ some port
      → socks_reply inet_pton4 inet_pton6 success (codes "127.0.0.1") port ≡ r
      → IsOrderly env (associated inet_pton4 inet_pton6 sends greeted_with r)
  unfolding associated
  associated-IsOrderly env sends port (err e) h g = over (λ s. cc)
  associated-IsOrderly env sends port (ok reply) h g =
      IsOrderly-if (is_positive (write_full sends reply).result)
        (λ w. record {
          messages = greeted_with ++ (reply, w) ∷ [];
          relayed = [];
          remote_started = false;
          udp_started = true;
        })
        (λ w. ends_with (greeted_with ++ (reply, w) ∷ [])) (associates h g)
        (over (λ s. (inr (port, h), refl)))

  dispatched-IsOrderly :
      (env : Environment) (sends : List SendResult) (stream : UringBufferedStream) (c : Command)
      → IsOrderly env (dispatched inet_pton4 inet_pton6 env sends greeted_with stream c)
  unfolding dispatched
  dispatched-IsOrderly env sends stream connect = by_handshake env.handshake refl
    where
      by_handshake :
          (h : Option Bytes)
          → env.handshake ≡ h
          → IsOrderly env (connected inet_pton4 inet_pton6 env stream.incoming sends greeted_with h)
      by_handshake none e =
          unfold connected in
          last_reply-IsOrderly env sends connection_refused (codes "0.0.0.0") 0 _ refl refl
      by_handshake (some remaining) e =
          unfold connected in tunnelled-IsOrderly env stream.incoming sends remaining _ e refl
  dispatched-IsOrderly env sends stream udp_associate = by_socket env.udp_port refl
    where
      by_socket :
          (p : Option ℕ)
          → env.udp_port ≡ p
          → IsOrderly env (bound inet_pton4 inet_pton6 sends greeted_with p)
      by_socket none e =
          unfold bound in
          last_reply-IsOrderly env sends general_failure (codes "0.0.0.0") 0 _ refl refl
      by_socket (some port) e = unfold bound in associated-IsOrderly env sends port _ e refl
  dispatched-IsOrderly env sends stream bind =
      last_reply-IsOrderly env sends command_not_supported (codes "0.0.0.0") 0 _ refl refl
  dispatched-IsOrderly env sends stream (other b) =
      last_reply-IsOrderly env sends command_not_supported (codes "0.0.0.0") 0 _ refl refl

  requested-IsOrderly :
      (env : Environment) (sends : List SendResult)
      (r : Result Socks5Error (Request × UringBufferedStream))
      → IsOrderly env (requested inet_pton4 inet_pton6 env sends greeted_with r)
  unfolding requested
  requested-IsOrderly env sends (err e) = over (λ s. cc)
  requested-IsOrderly env sends (ok (req, stream)) = dispatched-IsOrderly env sends stream req.cmd

  greeted-IsOrderly :
      (env : Environment) (r : Result Socks5Error (Bool × UringBufferedStream))
      → IsOrderly env (greeted inet_pton4 inet_pton6 env r)
  unfolding greeted
  greeted-IsOrderly env (err e) = over (λ s. cc)
  greeted-IsOrderly env (ok (false, stream)) = over (λ s. cc)
  greeted-IsOrderly env (ok (true, stream)) =
      let w = write_full env.app_sends greeting_response in
      IsOrderly-if (is_positive w.result)
        (λ b.
          requested inet_pton4 inet_pton6 env w.sends ((greeting_response, b) ∷ [])
            (read_request uring stream))
        (λ b. ends_with ((greeting_response, b) ∷ []))
        (requested-IsOrderly env w.sends (read_request uring stream)) (over (λ s. cc))

  -- Whatever the application sends and however the system answers, a session goes one of three ways.
  -- It ends without relaying, and then the reply of success was only tried where there is a tunnel or
  -- a socket for datagrams, and behind it a session only ends because a message could not be written;
  -- or both directions of a tunnel are relayed, and before that exactly the answer to the greeting,
  -- the reply of success and what the handshake read too much were written, each with a positive
  -- result; or the relay of datagrams was started, and before that exactly the answer to the greeting
  -- and the reply with the bound port were written, each with a positive result.
  pub client_task-IsOrderly :
      (env : Environment) → IsOrderly env (client_task inet_pton4 inet_pton6 env)
  unfolding client_task
  client_task-IsOrderly env = greeted-IsOrderly env _
