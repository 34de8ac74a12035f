-- ===== src/Socket.antt =====
-- `socket_abstract` of include/socket.hpp and src/socket.cpp: the state and the members. A call of the
-- system is an argument, as what it answers; `m_cv` only wakes `wait_data`, and is left out.
pub mod Reader
pub mod Tcp
pub mod Calls
pub mod Messages
mod Examples
use ztd.Base.{
  ℕ, suc, ◌+◌, ◌-◌, ◌%◌, ◌^◌, Bool, true, false, not, ◌&&◌, ◌||◌, Option, none, some, List, [], ◌∷◌,
  ◌++◌, length, ◌==◌, if◌then◌else◌,
}
use ztd.Base.Int.{ℤ, pos, negsuc, minus_one}
use ztd.Base.Text.{Bytes}

-- `m_fd`, `m_operational`, `m_parallel`, whether `m_thread` is set, and `m_dataSet`.
pub record Socket : Type 0 where
  pub fd : ℤ
  pub operational : Bool
  pub parallel : Bool
  pub has_thread : Bool
  pub data_set : List Bytes

-- `socket_abstract()`.
abbrev pub fresh : Socket
fresh = record {
  fd = minus_one;
  operational = false;
  parallel = false;
  has_thread = false;
  data_set = [];
}

abbrev pub is_negative : ℤ → Bool
is_negative (pos n) = false
is_negative (negsuc n) = true

-- `send(fd, bytes)`: the number of bytes, or a negative number.
abbrev pub Send : Type 0
Send = ℤ → Bytes → ℤ

-- `read(fd, buffer, size)`: the bytes stored in the buffer, none of them at the end of the stream;
-- `none` is the answer -1.
abbrev pub Read : Type 0
Read = ℤ → ℕ → Option Bytes

-- `m_fd < 0 || !m_operational`.
abbrev pub is_shut : Socket → Bool
is_shut s = is_negative s.fd || not s.operational

-- `parallelOff`.
unfoldable pub parallel_off : Socket → Socket
parallel_off s = record s { parallel = false; has_thread = false }

-- `close_socket`.
unfoldable pub close_socket : Socket → Socket
unfolding parallel_off
close_socket s = parallel_off (record s { operational = false; fd = minus_one })

-- `killParallel`: the thread is detached, and its object is deleted.
unfoldable pub kill_parallel : Socket → Socket
kill_parallel s = if s.has_thread then record s { parallel = false; has_thread = false } else s

-- `~socket_abstract`.
unfoldable pub destroyed : Socket → Socket
unfolding kill_parallel close_socket
destroyed s = close_socket (kill_parallel s)

-- `send_data`.
unfoldable pub send_data : Send → Socket → Bytes → Socket × Bool
unfolding close_socket
send_data send s message =
    if is_shut s
    then (s, false)
    else if is_negative (send s.fd message)
    then (close_socket s, false)
    else (s, true)

-- `text.c_str()` as an array of `text.size()+1` bytes.
abbrev pub terminated : Bytes → Bytes
terminated text = text ++ 0 ∷ []

-- `send_string`.
unfoldable pub send_string : Send → Socket → Bytes → Socket × Bool
unfolding close_socket
send_string send s text =
    if is_shut s
    then (s, false)
    else if is_negative (send s.fd (terminated text))
    then (close_socket s, false)
    else (s, true)

-- The std::string of a char array: the bytes in front of the first NUL.
unfoldable pub c_string : Bytes → Bytes
c_string [] = []
c_string (c ∷ s) = if c == 0 then [] else c ∷ c_string s

-- `read_string`: the buffer is zero behind the 255 bytes that are read at most.
unfoldable pub read_string : Read → Socket → Socket × Bytes
unfolding close_socket c_string
read_string read s = if is_shut s then (s, []) else elim (read s.fd 255) [
  | none ↦ (close_socket s, [])
  | some [] ↦ (close_socket s, [])
  | some (c ∷ buf) ↦ (s, c_string (c ∷ buf))
]

-- What `read_data` leaves: the socket, what it returns, the bytes stored in `data`, and `*size`.
pub record ReadData : Type 0 where
  pub socket : Socket
  pub success : Bool
  pub stored : Bytes
  pub count : ℕ

abbrev pub uint32_mod : ℕ
uint32_mod = 2 ^ 32

-- `uint32_t n = read(...)`, by which the answer -1 is the largest number.
abbrev pub unsigned_count : Option Bytes → ℕ
unsigned_count none = uint32_mod - 1
unsigned_count (some stored) = length stored % uint32_mod

abbrev pub stored_bytes : Option Bytes → Bytes
stored_bytes none = []
stored_bytes (some stored) = stored

-- `read_data`.
unfoldable pub read_data : Read → Socket → ℕ → ReadData
unfolding close_socket
read_data read s size =
    let answer = read s.fd size in
    let n = unsigned_count answer in
    if is_shut s
    then record { socket = s; success = false; stored = []; count = size }
    else if n == 0
    then record {
      socket = close_socket s;
      success = false;
      stored = stored_bytes answer;
      count = size;
    }
    else record { socket = s; success = true; stored = stored_bytes answer; count = n }

-- `retrieve`: the first element, or an empty one.
unfoldable pub retrieve : Socket → Socket × Bytes
retrieve s = elim s.data_set [
  | [] ↦ (s, [])
  | first ∷ later ↦ (record s { data_set = later }, first)
]

-- `parallel_on`, and whether it starts a thread.
unfoldable pub parallel_on : Socket → Socket × Bool
parallel_on s =
    if s.parallel then (s, false) else (record s { parallel = true; has_thread = true }, true)

-- Whether `wait_data` returns: its guards, and the test of its loop.
unfoldable pub is_waited : Socket → Bool
is_waited s = elim s.data_set [ [] ↦ not s.parallel || not s.operational | first ∷ later ↦ true ]
