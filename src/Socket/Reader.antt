-- ===== src/Socket/Reader.antt =====
-- `socket_abstract::parallel_reading` of src/socket.cpp.
use ztd.Base.{
  ℕ, not, ◌&&◌, none, some, List, [], ◌∷◌, ◌++◌, length, take, drop, leb, if◌then◌else◌, Option,
}
use ztd.Base.Text.{Bytes}
use ztd.Socket.{Socket, Read, ReadData, read_data}

-- The thread left its loop, waits in `read`, or reads behind the end of its buffer.
pub data Reading : Type 0 where
  left : Socket → Reading
  blocked : Socket → Reading
  out_of_bounds : Reading

-- `std::vector<uint8_t>(buffer, buffer+tmp_size)`; `none` is a read behind the buffer.
unfoldable pub copied : Bytes → ℕ → Option Bytes
copied buffer size = if leb size (length buffer) then some (take size buffer) else none

-- The buffer with new bytes at its front.
abbrev pub filled : Bytes → Bytes → Bytes
filled stored buffer = stored ++ drop (length stored) buffer

-- What a round does with what `read_data` left.
unfoldable pub round : Bytes → ReadData → Option Socket
unfolding copied
round buffer r =
    if r.success
    then elim (copied (filled r.stored buffer) r.count) [
      | none ↦ none
      | some bytes ↦ some (record r.socket { data_set = r.socket.data_set ++ bytes ∷ [] })
    ]
    else some r.socket

-- The loop, over the answers that `read` gives one after another, with a buffer of its size. Where there
-- is no further answer the thread waits.
unfoldable pub parallel_reading : List Read → Bytes → Socket → Reading
unfolding round read_data
parallel_reading [] buffer s = if s.parallel && s.operational then blocked s else left s
parallel_reading (read ∷ reads) buffer s =
    let r = read_data read s (length buffer) in
    let later = λ (t : Socket). parallel_reading reads (filled r.stored buffer) t in
    if not (s.parallel && s.operational)
    then left s
    else elim (round buffer r) [ none ↦ out_of_bounds | some t ↦ later t ]
