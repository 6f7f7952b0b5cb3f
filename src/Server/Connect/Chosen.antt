-- ===== src/Server/Connect/Chosen.antt =====
-- The choice of the target (src/server/vless_connection_connect.cpp).
use cppvless.Common.{
  ℕ, ◌≡◌, ◌⊎◌, refl, ap, subst, Bool, true, inl, inr, Bool-cases, List, [], ◌∷◌, ◌++◌, Bytes, All,
  Option, none, some,
}
use cppvless.Vless.Protocol.{Address, ipv4, ipv6, domain, Request}
use cppvless.Server.Connect.{
  SockAddr, inet, inet6, unsupported, is_udp, first_supported, answered, Connected, no_target,
  connect_to, target_addr, connect_target,
}

-- IPv4 or IPv6.
abbrev pub IsSupported : SockAddr → Type 0
IsSupported (inet ip port) = Unit
IsSupported (inet6 ip port) = Unit
IsSupported unsupported = ⊥

-- It has one of these families, and everything in front of it has another.
pub record IsFirst (answers : List SockAddr) (a : SockAddr) : Type 0 where
  pub front : List SockAddr
  pub back : List SockAddr
  pub split : answers ≡ front ++ (a ∷ back)
  pub skipped : All (λ x. x ≡ unsupported) front
  pub supported : IsSupported a

first_supported-IsFirst :
    (answers : List SockAddr) (a : SockAddr) → first_supported answers ≡ some a → IsFirst answers a
unfolding first_supported
first_supported-IsFirst [] a e = absurd cc
first_supported-IsFirst (unsupported ∷ answers) a e =
    let i = first_supported-IsFirst answers a e in
    record {
      front = unsupported ∷ i.front;
      back = i.back;
      split = ap (λ xs. unsupported ∷ xs) i.split;
      skipped = (refl, i.skipped);
      supported = i.supported;
    }
first_supported-IsFirst (inet ip port ∷ answers) a e =
    let same : inet ip port ≡ a = cc in
    record {
      front = [];
      back = answers;
      split = ap (λ x. x ∷ answers) same;
      skipped = tt;
      supported = subst IsSupported same tt;
    }
first_supported-IsFirst (inet6 ip port ∷ answers) a e =
    let same : inet6 ip port ≡ a = cc in
    record {
      front = [];
      back = answers;
      split = ap (λ x. x ∷ answers) same;
      skipped = tt;
      supported = subst IsSupported same tt;
    }

abbrev pub listed : Option (ℕ × SockAddr) → List ℕ
listed none = []
listed (some t) = t.0 ∷ []

module _ (getaddrinfo : Bytes → ℕ → Bool → Option (List SockAddr)) where
  -- The address that the request names.
  abbrev pub Names : Request → Address → SockAddr → Type 0
  Names req (ipv4 ip) a = a ≡ inet ip req.port
  Names req (ipv6 ip) a = a ≡ inet6 ip req.port
  Names req (domain name) a =
      (answers : List SockAddr) × (getaddrinfo name req.port (is_udp req.command) ≡ some answers)
      × IsFirst answers a

  target_addr-Names :
      (req : Request) (address : Address) (a : SockAddr)
      → target_addr getaddrinfo req address ≡ some a
      → Names req address a
  unfolding target_addr
  target_addr-Names req (ipv4 ip) a e = cc
  target_addr-Names req (ipv6 ip) a e = cc
  target_addr-Names req (domain name) a e = named (getaddrinfo name req.port (is_udp req.command)) e
    where
      named :
          (o : Option (List SockAddr))
          → answered o ≡ some a
          → (answers : List SockAddr) × (o ≡ some answers) × IsFirst answers a
      named none e = absurd cc
      named (some answers) e = (answers, refl, first_supported-IsFirst answers a e)

  -- How `connectTarget` may end.
  pub data IsChosen (req : Request) (fd : Option ℕ) : Connected → Type 0 where
    -- The socket is connected to the address that the request names, and stays open.
    reached :
        {n : ℕ} {a : SockAddr}
        → fd ≡ some n
        → Names req req.address a
        → IsChosen req fd (record { success = true; target = some (n, a); closed = [] })
    -- The socket was made, and is closed.
    refused : {n : ℕ} → fd ≡ some n → IsChosen req fd (no_target (n ∷ []))
    -- There is no address, or no socket.
    without :
        (target_addr getaddrinfo req req.address ≡ none) ⊎ (fd ≡ none)
        → IsChosen req fd (no_target [])

  -- A connection that succeeds goes to the address and port in the request, or to the first answer
  -- of `getaddrinfo` of a supported family for its name and port; one that fails leaves no socket
  -- open.
  pub connect_target-IsChosen :
      (req : Request) (fd : Option ℕ) (connects : Bool)
      → IsChosen req fd (connect_target getaddrinfo req fd connects)
  unfolding connect_target connect_to
  connect_target-IsChosen req fd connects =
      chosen (target_addr getaddrinfo req req.address) fd refl refl
    where
      chosen :
          (o : Option SockAddr) (f : Option ℕ)
          → target_addr getaddrinfo req req.address ≡ o
          → fd ≡ f
          → IsChosen req fd (connect_to f connects o)
      chosen none none e g = without (inl e)
      chosen none (some n) e g = without (inl e)
      chosen (some a) none e g = without (inr g)
      chosen (some a) (some n) e g = elim (Bool-cases connects) [
        | inl c ↦ rw c (reached g (target_addr-Names req req.address a e))
        | inr c ↦ rw c (refused g)
      ]
