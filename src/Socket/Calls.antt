-- ===== src/Socket/Calls.antt =====
-- Sequences of the members of `socket_abstract` in src/socket.cpp, with any answers of the system.
use ztd.Base.{ℕ, Option, some, false, List, [], ◌≡◌, refl, arith}
use ztd.Base.Int.{ℤ, minus_one}
use ztd.Base.Text.{Bytes}
use ztd.Socket.Reader.{round}
use ztd.Socket.Tcp.{
  Address, Client, Family, Instance, Server, init, listen_on, connect_to, accept_connection,
}
use ztd.Socket.{
  Socket, Send, Read, parallel_off, close_socket, kill_parallel, send_data, send_string,
  read_string, read_data, retrieve, parallel_on,
}

-- A member called on the socket by the program, a round of the reading thread, or a change of the
-- data that `data` refers to; or an `init`, a `listen`, a connection that was refused, or an `accept`
-- that failed, on the TCP sockets that stand on it.
pub data Call (s : Socket) : Socket → Type 0 where
  sends_data : (send : Send) (message : Bytes) → Call s (send_data send s message).0
  sends_string : (send : Send) (text : Bytes) → Call s (send_string send s text).0
  reads_string : (read : Read) → Call s (read_string read s).0
  reads_data : (read : Read) (size : ℕ) → Call s (read_data read s size).socket
  turns_on : Call s (parallel_on s).0
  turns_off : Call s (parallel_off s)
  kills : Call s (kill_parallel s)
  closes : Call s (close_socket s)
  retrieves : Call s (retrieve s).0
  rounds :
      {t : Socket} (read : Read) (buffer : Bytes) (size : ℕ)
      → round buffer (read_data read s size) ≡ some t
      → Call s t
  changes_data : (data_set : List Bytes) → Call s (record s { data_set = data_set })
  listens :
      (family : Family) (bind : ℤ → ℕ → ℤ) (server : Server) (port backlog : ℕ)
      → server.base ≡ s
      → Call s (listen_on family bind server port backlog).0.base
  inits : (descriptor : ℤ) → Call s (init descriptor s).0
  is_refused :
      (resolve : Bytes → Option Bytes) (connect : ℤ → Bytes → ℕ → ℤ) (c c' : Client) (addr : Bytes)
      (port : ℕ)
      → c.base ≡ s
      → connect_to resolve connect c addr port ≡ some (c', false)
      → Call s c'.base
  accepts_nothing :
      (accept : ℤ → Option Address → ℤ × Option Address) (i : Instance)
      → i.base ≡ s
      → (accept_connection accept i).1 ≡ false
      → Call s (accept_connection accept i).0.base

pub data Calls (s : Socket) : Socket → Type 0 where
  here : Calls s s
  next : {t u : Socket} → Calls s t → Call t u → Calls s u

abbrev pub IsClosed : Socket → Type 0
IsClosed s = s.operational ≡ false

is_refused-IsClosed :
    (resolve : Bytes → Option Bytes) (connect : ℤ → Bytes → ℕ → ℤ) (c c' : Client) (addr : Bytes)
    (port : ℕ)
    → connect_to resolve connect c addr port ≡ some (c', false)
    → IsClosed c.base
    → IsClosed c'.base
unfolding connect_to
is_refused-IsClosed resolve connect c c' addr port e h = ground arith

accepts_nothing-IsClosed :
    (accept : ℤ → Option Address → ℤ × Option Address) (i : Instance)
    → (accept_connection accept i).1 ≡ false
    → IsClosed i.base
    → IsClosed (accept_connection accept i).0.base
unfolding accept_connection
accepts_nothing-IsClosed accept i e h = ground arith

rounds-IsClosed :
    (s : Socket) {t : Socket} (read : Read) (buffer : Bytes) (size : ℕ)
    → round buffer (read_data read s size) ≡ some t
    → IsClosed s
    → IsClosed t
unfolding read_data round
rounds-IsClosed s read buffer size e h = ground arith

listens-IsClosed :
    (family : Family) (bind : ℤ → ℕ → ℤ) (server : Server) (port backlog : ℕ)
    → IsClosed server.base
    → IsClosed (listen_on family bind server port backlog).0.base
unfolding listen_on
listens-IsClosed family bind server port backlog h = ground arith

Call-IsClosed : {s t : Socket} → Call s t → IsClosed s → IsClosed t
unfolding send_data send_string read_string read_data parallel_on parallel_off kill_parallel
    close_socket retrieve init
Call-IsClosed (sends_data send message) h = ground arith
Call-IsClosed (sends_string send text) h = ground arith
Call-IsClosed (reads_string read) h = ground arith
Call-IsClosed (reads_data read size) h = ground arith
Call-IsClosed turns_on h = ground arith
Call-IsClosed turns_off h = ground arith
Call-IsClosed kills h = ground arith
Call-IsClosed closes h = ground arith
Call-IsClosed retrieves h = ground arith
Call-IsClosed {s} (rounds read buffer size e) h = rounds-IsClosed s read buffer size e h
Call-IsClosed (changes_data data_set) h = h
Call-IsClosed (listens family bind server port backlog b) h =
    listens-IsClosed family bind server port backlog (rw b h)
Call-IsClosed (inits descriptor) h = h
Call-IsClosed (is_refused resolve connect c c' addr port b e) h =
    is_refused-IsClosed resolve connect c c' addr port e (rw b h)
Call-IsClosed (accepts_nothing accept i b e) h = accepts_nothing-IsClosed accept i e (rw b h)

Calls-IsClosed : {s t : Socket} → Calls s t → IsClosed s → IsClosed t
Calls-IsClosed here h = h
Calls-IsClosed (next r c) h = Call-IsClosed c (Calls-IsClosed r h)

-- `close_socket` leaves a socket without a descriptor. Behind it, until a TCP socket connects or accepts
-- a connection, whatever is called on the socket, `init` included, and whatever the system answers: the
-- socket is not operational, and the members that send and read change nothing and return that they
-- failed.
pub Calls-close_socket :
    (s t : Socket) (send : Send) (read : Read) (text : Bytes) (size : ℕ)
    → Calls (close_socket s) t
    → ((close_socket s).fd ≡ minus_one)
      × IsClosed t
      × (send_string send t text ≡ (t, false))
      × (send_data send t text ≡ (t, false))
      × (read_string read t ≡ (t, []))
      × ((read_data read t size).success ≡ false)
      × ((read_data read t size).socket ≡ t)
Calls-close_socket s t send read text size r =
    let h = Calls-IsClosed r (unfold close_socket parallel_off in refl) in
    unfold close_socket parallel_off send_string send_data read_string read_data in
    (refl, h, ground arith, ground arith, ground arith, ground arith, ground arith)
