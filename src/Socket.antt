-- ===== src/Socket.antt =====
-- The socket addresses that the C files of measurement_proxy share: the IPv4 part of
-- `struct sockaddr_in`, with the port and the address as the numbers that `ntohs` and `ntohl` give.
use matador.Base.{ℕ}

pub record SockaddrIn : Type 0 where
  pub sin_port : ℕ
  pub s_addr : ℕ

abbrev pub inaddr_any : ℕ
inaddr_any = 0

-- `memset(&addr, 0, sizeof(addr))`
abbrev pub zero_addr : SockaddrIn
zero_addr = record { sin_port = 0; s_addr = 0 }
