-- ===== src/Server/Session/Phases.antt =====
-- Which phases a session enters, and in which order.
use cppvless.Common.{
  is_empty, ◌≡◌, refl, ◌⊎◌, inl, inr, Bool, true, false, List, [], ◌∷◌, ◌++◌, Bytes, Bool-cases,
  equal, equal_iff, Option, none, some,
}
use cppvless.Vless.Protocol.{Request, Command, tcp, udp, mux, rvs, other}
use cppvless.Vless.Encryption.{EncryptionMethod}
use cppvless.Server.Session.{
  Phase, sends_response, connects_target, starts_target_task, forwards_remaining, relays, Outcomes,
  flow_vision, setup_vision, setup_encryption, tcp_phases, set_up, run_tcp_session, udp_phases,
  run_udp_session, dispatch,
}

abbrev pub IsPrefix : List Phase → List Phase → Type 0
IsPrefix ps all = (rest : List Phase) × (all ≡ ps ++ rest)

abbrev pub tcp_order : List Phase
tcp_order = sends_response ∷ connects_target ∷ starts_target_task ∷ forwards_remaining ∷ relays ∷ []

abbrev pub udp_order : List Phase
udp_order = sends_response ∷ connects_target ∷ starts_target_task ∷ relays ∷ []

-- The phases that a request may lead to. Without any the session ends at once.
pub data IsAllowed (req : Request) : Command → List Phase → Type 0 where
  refused : {c : Command} → IsAllowed req c []
  tcp_session :
      {ps : List Phase}
      → (req.flow ≡ []) ⊎ (req.flow ≡ flow_vision)
      → IsPrefix ps tcp_order
      → IsAllowed req tcp ps
  udp_session :
      {ps : List Phase}
      → req.flow ≡ []
      → req.encryption ≡ []
      → IsPrefix ps udp_order
      → IsAllowed req udp ps

tcp_phases-IsPrefix : (o : Outcomes) → IsPrefix (tcp_phases o).1 tcp_order
tcp_phases-IsPrefix o = by o.responded o.connected o.forwarded
  where
    by :
        (r c f : Bool)
        → IsPrefix
            (tcp_phases (record o { responded = r; connected = c; forwarded = f })).1
            tcp_order
    by false c f = (_, refl)
    by true false f = (_, refl)
    by true true false = (_, refl)
    by true true true = ([], refl)

udp_phases-IsPrefix : (o : Outcomes) → IsPrefix (udp_phases o).1 udp_order
udp_phases-IsPrefix o = by o.responded o.connected
  where
    by :
        (r c : Bool) → IsPrefix (udp_phases (record o { responded = r; connected = c })).1 udp_order
    by false c = (_, refl)
    by true false = (_, refl)
    by true true = ([], refl)

empty_text : (s : Bytes) → is_empty s ≡ true → s ≡ []
empty_text [] h = refl
empty_text (c ∷ cs) h = cc

setup_vision-flow :
    (req : Request) (v : Bool)
    → setup_vision req ≡ some v
    → (req.flow ≡ []) ⊎ (req.flow ≡ flow_vision)
unfolding setup_vision
setup_vision-flow req v h = elim (Bool-cases (equal req.flow flow_vision)) [
  | inl e ↦ inr ((equal_iff req.flow flow_vision).0 e)
  | inr e ↦ elim (Bool-cases (is_empty req.flow)) [
    | inl n ↦ inl (empty_text req.flow n)
    | inr n ↦ absurd (let h' : none ≡ some v = (simp (e, n) at h) in cc)
  ]
]

run_tcp_session-IsAllowed :
    (o : Outcomes) (req : Request) → IsAllowed req tcp (run_tcp_session o req).1
unfolding run_tcp_session
run_tcp_session-IsAllowed o req = go (setup_vision req) (setup_encryption o.client_key req) refl
  where
    go :
        (v : Option Bool) (e : Option (Option EncryptionMethod))
        → setup_vision req ≡ v
        → IsAllowed req tcp (set_up o v e).1
    go none e h = refused
    go (some v) none h = refused
    go (some v) (some m) h = tcp_session (setup_vision-flow req v h) (tcp_phases-IsPrefix o)

run_udp_session-IsAllowed :
    (o : Outcomes) (req : Request) → IsAllowed req udp (run_udp_session o req).1
unfolding run_udp_session
run_udp_session-IsAllowed o req = elim (Bool-cases (is_empty req.flow)) [
  | inr f ↦ simp f refused
  | inl f ↦ elim (Bool-cases (is_empty req.encryption)) [
    | inr e ↦ simp (f, e) refused
    | inl e ↦
        simp (f, e)
          (udp_session (empty_text req.flow f) (empty_text req.encryption e)
            (udp_phases-IsPrefix o))
  ]
]

-- Whatever the awaited operations give, a session contacts nobody unless it is a TCP one without
-- flow or with Vision, or a UDP one without flow and encryption; and the phases it enters are a
-- front part of the fixed order, in which the response is sent before the target is connected.
pub dispatch-IsAllowed :
    (o : Outcomes) (req : Request) (c : Command) → IsAllowed req c (dispatch o req c).1
unfolding dispatch
dispatch-IsAllowed o req tcp = run_tcp_session-IsAllowed o req
dispatch-IsAllowed o req udp = run_udp_session-IsAllowed o req
dispatch-IsAllowed o req mux = refused
dispatch-IsAllowed o req rvs = refused
dispatch-IsAllowed o req (other b) = refused
