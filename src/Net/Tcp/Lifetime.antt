-- ===== src/Net/Tcp/Lifetime.antt =====
-- src/net/tcp_socket.cpp: the descriptors that are open behind the calls that make and free them.
use veda_rtsp.Base.{
  ℕ, ◌≡◌, ◌↔◌, true, if◌then◌else◌, ◌==◌, Option, none, some, List, [], ◌∷◌, ◌++◌, ◌≢◌, arith,
  ◌>>=◌,
}
use veda_rtsp.Net.Tcp.{FdCall, opens, closes, Setup, make_listener, destroy}

-- A descriptor taken out of those that are open: an error when it is not open.
abbrev close_one : ℕ → List ℕ → Option (List ℕ)
close_one fd [] = none
close_one fd (x ∷ fds) =
    let later = close_one fd fds >>= (λ left. some (x ∷ left)) in
    if x == fd then some fds else later

-- The descriptors that are open behind the calls, when no call closes one that is not open.
abbrev pub open_after : List ℕ → List FdCall → Option (List ℕ)
open_after fds [] = some fds
open_after fds (opens fd ∷ rest) = open_after (fd ∷ fds) rest
open_after fds (closes fd ∷ rest) = close_one fd fds >>= (λ left. open_after left rest)

abbrev kept : Option ℕ → List ℕ
kept none = []
kept (some fd) = fd ∷ []

-- The constructor of the listener keeps open exactly the descriptor that it holds, none behind a
-- failure at any step; it holds one exactly when all four calls succeed; and its destructor leaves
-- none open. No call closes a descriptor that is not open.
pub make_listener_lifetime :
    (answers : Setup)
    → (open_after [] (make_listener answers).1 ≡ some (kept (make_listener answers).0))
      × (((make_listener answers).0 ≢ none) ↔ (
          (answers.socket ≢ none)
          × (answers.reuses ≡ true)
          × (answers.binds ≡ true)
          × (answers.listens ≡ true)))
      × (open_after [] ((make_listener answers).1 ++ destroy (make_listener answers).0) ≡ some [])
unfolding make_listener destroy
make_listener_lifetime answers = (ground arith, (ground arith, ground arith), ground arith)
