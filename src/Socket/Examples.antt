-- ===== src/Socket/Examples.antt =====
-- Sockets at which the theorems are applied.
use ztd.Base.{true, false, List, [], ◌∷◌, ◌++◌, ◌≡◌, refl, arith, take, map, ◌-◌}
use ztd.Base.Int.{pos, minus_one}
use ztd.Base.Text.{Bytes, codes}
use ztd.Socket.Calls.{Call, Calls, IsClosed, Calls-close_socket}
use ztd.Socket.Messages.{
  answers, fails, read_string-terminated, read_data-fails, parallel_reading-messages,
}
use ztd.Socket.Tcp.{init}
use ztd.Socket.Reader.{left, out_of_bounds, parallel_reading}
use ztd.Socket.{
  Socket, Send, close_socket, terminated, send_string, send_data, read_string, read_data,
  parallel_on, uint32_mod,
}

abbrev connected : Socket
connected = record {
  fd = pos 4;
  operational = true;
  parallel = true;
  has_thread = true;
  data_set = codes "old" ∷ [];
}

abbrev sent : Send
sent fd bytes = pos 3

Calls-close_socket_example :
    let t = (parallel_on (init (pos 4) (close_socket connected)).0).0 in
    ((close_socket connected).fd ≡ minus_one)
    × IsClosed t
    × (send_string sent t (codes "hi") ≡ (t, false))
    × (send_data sent t (codes "hi") ≡ (t, false))
    × (read_string (answers (codes "yo")) t ≡ (t, []))
    × ((read_data (answers (codes "yo")) t 8).success ≡ false)
    × ((read_data (answers (codes "yo")) t 8).socket ≡ t)
Calls-close_socket_example =
    Calls-close_socket connected _ sent (answers (codes "yo")) (codes "hi") 8
      (Calls.next (Calls.next Calls.here (Call.inits (pos 4))) Call.turns_on)

read_string-terminated_example :
    read_string (answers (take 6 (terminated (codes "hello")))) connected
    ≡ (connected, take 6 (codes "hello"))
read_string-terminated_example =
    read_string-terminated connected (codes "hello") 6 refl (omega arith) (omega arith)
      (omega arith)

read_data-fails_example :
    (read_data fails connected 8
      ≡ record { socket = connected; success = true; stored = []; count = uint32_mod - 1 })
    × (parallel_reading (fails ∷ []) (codes "........") connected ≡ out_of_bounds)
read_data-fails_example = read_data-fails connected 8 (codes "........") [] refl refl (omega arith)

abbrev messages : List Bytes
messages = codes "one" ∷ codes "two" ∷ []

parallel_reading-messages_example :
    parallel_reading (map answers messages ++ answers [] ∷ []) (codes "....") connected
    ≡ left (close_socket (record connected { data_set = connected.data_set ++ messages }))
parallel_reading-messages_example =
    parallel_reading-messages messages connected (codes "....") refl refl (omega arith)
      (((λ e. cc), omega arith), (((λ e. cc), omega arith), tt))
