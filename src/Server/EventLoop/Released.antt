-- ===== src/Server/EventLoop/Released.antt =====
-- Where the accepted descriptors are (src/server/event_loop.cpp).
use cppvless.Common.{
  ℕ, ◌+◌, ◌≡◌, refl, ap, ◌∙◌, Bool, false, inl, inr, Bool-cases, List, [], ◌∷◌, ◌++◌, ◌==◌,
  if◌then◌else◌, Option, none, some, All, arith,
}
use cppvless.Server.EventLoop.{
  EventLoop, started_loop, Completion, accepts, goes_on, stops, put_connection, stop, made,
  accept_round, changed, complete_one, process_completions, open_ones, closed_ones,
  cleanup_closed_connections, rounds, descriptors, run,
}

-- How often a descriptor is in a list.
abbrev pub count : ℕ → List ℕ → ℕ
count d [] = 0
count d (x ∷ xs) = (if x == d then 1 else 0) + count d xs

count-append : (d : ℕ) (xs ys : List ℕ) → count d (xs ++ ys) ≡ count d xs + count d ys
count-append d [] ys = omega arith
count-append d (x ∷ xs) ys = omega (arith, count-append d xs ys)

IsCounted : {C : Type 0} → EventLoop C → Type 0
IsCounted l =
    (d : ℕ) → count d (descriptors l.connections) + count d l.released ≡ count d l.accepted

put_connection-count :
    {C : Type 0}
    → (d fd : ℕ) (c : C) (cs : List (ℕ × C))
    → let p = put_connection fd c cs in
      count d (descriptors p.0) + count d p.1
      ≡ (if fd == d then 1 else 0) + count d (descriptors cs)
unfolding put_connection
put_connection-count d fd c [] = omega arith
put_connection-count d fd c ((k, x) ∷ cs) = elim (Bool-cases (k == fd)) [
  | inl e ↦ rw e (ground arith)
  | inr e ↦ rw e (omega (arith, put_connection-count d fd c cs))
]

changed-descriptors :
    {C : Type 0}
    → (fd : ℕ) (c : C) (cs : List (ℕ × C)) → descriptors (changed fd c cs) ≡ descriptors cs
unfolding changed
changed-descriptors fd c [] = refl
changed-descriptors fd c ((k, x) ∷ cs) = elim (Bool-cases (k == fd)) [
  | inl e ↦ rw e refl
  | inr e ↦ rw e (ap (λ ds. k ∷ ds) (changed-descriptors fd c cs))
]

module _ {C : Type 0} (factory : ℕ → Option C) where
  made-IsCounted :
      (l : EventLoop C) (fd : ℕ) (o : Option C)
      → IsCounted l
      → IsCounted
          (made factory (record l { accepting = l.running; accepted = fd ∷ l.accepted }) fd o)
  unfolding IsCounted
  made-IsCounted l fd none i d = omega (arith, i d)
  made-IsCounted l fd (some c) i d = omega (
    arith,
    i d,
    put_connection-count d fd c l.connections,
    count-append d (put_connection fd c l.connections).1 l.released,
  )

  complete_one-IsCounted :
      (l : EventLoop C) (x : Completion C) → IsCounted l → IsCounted (complete_one factory l x)
  unfolding complete_one accept_round stop
  complete_one-IsCounted l (accepts none) i = unfold IsCounted in λ d. ground (arith, i d)
  complete_one-IsCounted l (accepts (some fd)) i = elim (Bool-cases l.accepting) [
    | inl e ↦ simp e (made-IsCounted l fd (factory fd) i)
    | inr e ↦ simp e i
  ]
  complete_one-IsCounted l (goes_on fd c) i =
      unfold IsCounted in
      λ d. ap (λ ds. count d ds + count d l.released) (changed-descriptors fd c l.connections) ∙ i d
  complete_one-IsCounted l stops i = unfold IsCounted in i

  process_completions-IsCounted :
      (xs : List (Completion C)) (l : EventLoop C)
      → IsCounted l
      → IsCounted (process_completions factory l xs)
  unfolding process_completions
  process_completions-IsCounted [] l i = i
  process_completions-IsCounted (x ∷ xs) l i =
      process_completions-IsCounted xs (complete_one factory l x) (complete_one-IsCounted l x i)

module _ {C : Type 0} (is_closed : C → Bool) where
  open_ones-count :
      (d : ℕ) (cs : List (ℕ × C))
      → count d (descriptors (open_ones is_closed cs)) + count d (closed_ones is_closed cs)
        ≡ count d (descriptors cs)
  unfolding open_ones closed_ones
  open_ones-count d [] = omega arith
  open_ones-count d ((k, c) ∷ cs) = elim (Bool-cases (is_closed c)) [
    | inl e ↦ rw e (omega (arith, open_ones-count d cs))
    | inr e ↦ rw e (omega (arith, open_ones-count d cs))
  ]

  cleanup-IsCounted :
      (l : EventLoop C) → IsCounted l → IsCounted (cleanup_closed_connections is_closed l)
  unfolding IsCounted cleanup_closed_connections
  cleanup-IsCounted l i d = omega (
    arith,
    i d,
    open_ones-count d l.connections,
    count-append d (closed_ones is_closed l.connections) l.released,
  )

  AllOpen : List (ℕ × C) → Type 0
  AllOpen = All (λ p. is_closed p.1 ≡ false)

  open_ones-AllOpen : (cs : List (ℕ × C)) → AllOpen (open_ones is_closed cs)
  unfolding AllOpen open_ones
  open_ones-AllOpen [] = tt
  open_ones-AllOpen ((k, c) ∷ cs) = elim (Bool-cases (is_closed c)) [
    | inl e ↦ rw e (open_ones-AllOpen cs)
    | inr e ↦ rw e (e, open_ones-AllOpen cs)
  ]

-- All connections are open, and every descriptor that was accepted is held by one or was closed.
record IsSwept {C : Type 0} (is_closed : C → Bool) (l : EventLoop C) : Type 0 where
  counted : IsCounted l
  all_open : AllOpen is_closed l.connections

module _ {C : Type 0} (is_closed : C → Bool) (factory : ℕ → Option C) where
  rounds-IsSwept :
      (xss : List (List (Completion C))) (l : EventLoop C)
      → IsSwept is_closed l
      → IsSwept is_closed (rounds is_closed factory l xss)
  unfolding rounds
  rounds-IsSwept [] l i = i
  rounds-IsSwept (xs ∷ xss) l i = elim (Bool-cases l.running) [
    | inl e ↦ simp e (rounds-IsSwept xss _ (swept l xs i.counted))
    | inr e ↦ simp e i
  ]
    where
      swept :
          (l : EventLoop C) (xs : List (Completion C))
          → IsCounted l
          → IsSwept is_closed
              (cleanup_closed_connections is_closed (process_completions factory l xs))
      swept l xs i = record {
        counted = cleanup-IsCounted is_closed _ (process_completions-IsCounted factory xs l i);
        all_open = unfold cleanup_closed_connections in open_ones-AllOpen is_closed _;
      }

  -- When the loop has ended, every descriptor has been closed exactly as often as it was accepted,
  -- and no connection is left; before, after every number of rounds, all connections are open, and
  -- every descriptor has been accepted as often as it is held by a connection or was closed.
  pub rounds-released :
      (xss : List (List (Completion C)))
      → ((d : ℕ)
          → count d (run is_closed factory xss).released
            ≡ count d (run is_closed factory xss).accepted)
        × All (λ p. is_closed p.1 ≡ false) (rounds is_closed factory started_loop xss).connections
        × ((d : ℕ)
            → count d (descriptors (rounds is_closed factory started_loop xss).connections)
                + count d (rounds is_closed factory started_loop xss).released
              ≡ count d (rounds is_closed factory started_loop xss).accepted)
  unfolding run IsCounted AllOpen
  rounds-released xss =
      let l = rounds is_closed factory started_loop xss in
      let i =
        rounds-IsSwept xss started_loop (record { counted = λ d. omega arith; all_open = tt }) in
      (
        (λ d. omega (arith, i.counted d, count-append d (descriptors l.connections) l.released)),
        i.all_open,
        i.counted,
      )
