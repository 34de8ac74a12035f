-- ===== src/Socket/Tcp.antt =====
-- The TCP sockets of include/socket.hpp and src/socket.cpp. A call of the system is an argument.
use ztd.Base.{ℕ, Bool, true, false, not, Option, none, some, ◌==◌, if◌then◌else◌}
use ztd.Base.Int.{ℤ}
use ztd.Base.Text.{Bytes}
use ztd.Socket.{Socket, fresh, is_negative}

pub data Family : Type 0 where
  ipv4 ipv6 : Family

-- `init_ipv4` and `init_ipv6`, by the descriptor that `socket` answers.
unfoldable pub init : ℤ → Socket → Socket × Bool
init descriptor s = (record s { fd = descriptor }, not (is_negative descriptor))

pub record Server : Type 0 where
  pub base : Socket
  pub listening : Bool
  pub port : ℕ

abbrev pub new_server : Server
new_server = record { base = fresh; listening = false; port = 0 }

-- What `listen` is called with: `listen_ipv4` does not pass its argument on.
abbrev pub backlog_of : Family → ℕ → ℕ
backlog_of ipv4 backlog = 5
backlog_of ipv6 backlog = backlog

-- `listen_ipv4` and `listen_ipv6`: the server, what is returned, and the call of `listen`, if one was
-- made. `bind` answers a negative number where it fails.
unfoldable pub listen_on : Family → (ℤ → ℕ → ℤ) → Server → ℕ → ℕ → Server × Bool × Option (ℤ × ℕ)
listen_on family bind server port backlog =
    let s = record server { port = port } in
    if port == 0
    then (s, false, none)
    else if is_negative (bind s.base.fd port)
    then (s, false, none)
    else if is_negative s.base.fd
    then (s, false, some (s.base.fd, backlog_of family backlog))
    else (record s { listening = true }, true, some (s.base.fd, backlog_of family backlog))

-- What the code reads of a `sockaddr_in`: the address and the port, in the order of the network.
pub record Address : Type 0 where
  pub sin_addr : Bytes
  pub sin_port : ℕ

-- `m_cliaddr` has no value before the system writes one.
pub record Instance : Type 0 where
  pub base : Socket
  pub server : Option Server
  pub cliaddr : Option Address

-- `tcpsocket_server_instance(server)`.
abbrev pub new_instance : Option Server → Instance
new_instance server = record { base = fresh; server = server; cliaddr = none }

-- `accept_connection`: `accept` answers a descriptor, and `m_cliaddr` as it leaves it.
unfoldable pub accept_connection :
    (ℤ → Option Address → ℤ × Option Address) → Instance → Instance × Bool
accept_connection accept i = elim i.server [
  | none ↦ (i, false)
  | some server ↦
      let (fd, cliaddr) = accept server.base.fd i.cliaddr in
      if not server.listening
      then (i, false)
      else if is_negative fd
      then (record i { base = record i.base { fd = fd }; cliaddr = cliaddr }, false)
      else (
        record i { base = record i.base { fd = fd; operational = true }; cliaddr = cliaddr },
        true,
      )
]

-- `client_address`, by `inet_ntoa`, and `client_port`, by `ntohs`; `none` is a read of an address
-- without a value.
unfoldable pub client_address : (Bytes → Bytes) → Instance → Option Bytes
client_address inet_ntoa i = elim i.cliaddr [ none ↦ none | some a ↦ some (inet_ntoa a.sin_addr) ]

unfoldable pub client_port : (ℕ → ℕ) → Instance → Option ℕ
client_port ntohs i = elim i.cliaddr [ none ↦ none | some a ↦ some (ntohs a.sin_port) ]

pub record Client : Type 0 where
  pub base : Socket
  pub addr : Bytes
  pub port : ℕ

-- `connect_ipv4` and `connect_ipv6`: `resolve` is `gethostbyname`, whose null pointer is read where it
-- finds no host, which `none` stands for.
unfoldable pub connect_to :
    (Bytes → Option Bytes) → (ℤ → Bytes → ℕ → ℤ) → Client → Bytes → ℕ → Option (Client × Bool)
connect_to resolve connect client addr port =
    let c = record client { addr = addr; port = port } in
    elim (resolve addr) [
      | none ↦ none
      | some host ↦
          if is_negative (connect c.base.fd host port)
          then some (c, false)
          else some (record c { base = record c.base { operational = true } }, true)
    ]
