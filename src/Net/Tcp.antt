-- ===== src/Net/Tcp.antt =====
-- src/net/tcp_socket.hpp and tcp_socket.cpp: the listener, and the connection to one client.
pub mod Transfer
pub mod Lifetime
use veda_rtsp.Base.{
  ℕ, suc, Bool, true, false, if◌then◌else◌, Option, none, some, ◌>>=◌, List, [], ◌∷◌, ◌++◌, Bytes,
  length, take, drop, ℤ, pos, negsuc,
}

-- The calls that make or free a descriptor.
pub data FdCall : Type 0 where
  opens : ℕ → FdCall
  closes : ℕ → FdCall

-- The answers to `socket`, `setsockopt`, `bind` and `listen`; `none` is -1.
pub record Setup : Type 0 where
  pub socket : Option ℕ
  pub reuses : Bool
  pub binds : Bool
  pub listens : Bool

-- `fd_` of the listener, `none` for -1, and the calls made.
unfoldable pub make_listener : Setup → Option ℕ × List FdCall
make_listener answers = elim answers.socket [
  | none ↦ (none, [])
  | some fd ↦
      if answers.reuses
      then if answers.binds
        then if answers.listens then (some fd, opens fd ∷ []) else (none, opens fd ∷ closes fd ∷ [])
        else (none, opens fd ∷ closes fd ∷ [])
      else (none, opens fd ∷ closes fd ∷ [])
]

-- Both destructors: `if (fd_ >= 0) ::close(fd_)`.
unfoldable pub destroy : Option ℕ → List FdCall
destroy none = []
destroy (some fd) = closes fd ∷ []

-- `accept_one`: the descriptor of the client, or -1.
unfoldable pub accept_one : Option ℕ → ℤ
accept_one none = negsuc 0
accept_one (some fd) = pos fd

-- What one call of `read` answers: bytes (none at the end of the stream), EINTR, or an error.
pub data ReadAnswer : Type 0 where
  delivered : Bytes → ReadAnswer
  read_interrupted : ReadAnswer
  read_failed : ReadAnswer

-- The value returned, and the bytes in the buffer. `none` means that the calls have not ended.
unfoldable pub read : List ReadAnswer → Option (ℤ × Bytes)
read [] = none
read (read_interrupted ∷ answers) = read answers
read (read_failed ∷ answers) = some (negsuc 0, [])
read (delivered bytes ∷ answers) = some (pos (length bytes), bytes)

-- What one call of `write` answers: the count of bytes taken, EINTR, or an error.
pub data WriteAnswer : Type 0 where
  took : ℕ → WriteAnswer
  write_interrupted : WriteAnswer
  write_failed : WriteAnswer

-- `while (remaining > 0)`: the bytes that the system has taken, and whether all went well.
unfoldable pub write_loop : List WriteAnswer → Bytes → Option (Bytes × Bool)
write_loop answers [] = some ([], true)
write_loop [] (b ∷ bs) = none
write_loop (write_interrupted ∷ answers) (b ∷ bs) = write_loop answers (b ∷ bs)
write_loop (write_failed ∷ answers) (b ∷ bs) = some ([], false)
write_loop (took n ∷ answers) (b ∷ bs) = do
  (sent, ok) ← write_loop answers (drop n (b ∷ bs))
  some (take n (b ∷ bs) ++ sent, ok)

-- The bytes that have gone out, and the value returned.
unfoldable pub write : List WriteAnswer → Bytes → Option (Bytes × ℤ)
unfolding write_loop
write answers bytes = do
  (sent, ok) ← write_loop answers bytes
  some (sent, if ok then pos (length bytes) else negsuc 0)

-- `peer_ip`: the text of the peer's address, empty where there is no connection.
unfoldable pub peer_ip : Option ℕ → Option Bytes → Bytes
peer_ip none name = []
peer_ip (some fd) none = []
peer_ip (some fd) (some address) = address
