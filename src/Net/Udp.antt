-- ===== src/Net/Udp.antt =====
-- src/net/udp_socket.hpp and udp_socket.cpp: the datagram socket of one streamer.
use veda_rtsp.Base.{
  ℕ, Bool, if◌then◌else◌, false, Option, none, some, List, [], ◌∷◌, Bytes, ℤ, negsuc,
}
use veda_rtsp.Net.Tcp.{FdCall, closes}

-- `fd_`: what `socket` gave, `none` for -1.
unfoldable pub make_udp_socket : Option ℕ → Option ℕ
make_udp_socket socket = socket

-- `bind`, with the answer of the system's call.
unfoldable pub bind : Option ℕ → Bool → Bool
bind none binds = false
bind (some fd) binds = binds

-- `connect_to`, with the answers of `inet_pton` and `connect`.
unfoldable pub connect_to : Option ℕ → Bool → Bool → Bool
connect_to none is_address connects = false
connect_to (some fd) is_address connects = if is_address then connects else false

-- `send`, with the answer of the system's call; a null buffer is `none`.
unfoldable pub send : Option ℕ → Option Bytes → ℤ → ℤ
send none buffer answer = negsuc 0
send (some fd) none answer = negsuc 0
send (some fd) (some bytes) answer = answer

-- The destructor: `if (fd_ >= 0) ::close(fd_)`.
unfoldable pub destroy : Option ℕ → List FdCall
destroy none = []
destroy (some fd) = closes fd ∷ []
