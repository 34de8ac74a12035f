-- ===== src/Socket/Messages.antt =====
-- What the members of src/socket.cpp that read make of what the other side sent.
use ztd.Base.{
  ℕ, suc, zero, ◌-◌, ◌≤◌, ◌<◌, true, false, none, some, List, [], ◌∷◌, ◌++◌, ◌≡◌, ◌≢◌, refl, arith,
  ◌∙◌, length, length-append, length-drop, take, take-length, drop, map, append_assoc, append-nil,
}
use ztd.Base.Text.{Bytes}
use ztd.Socket.{
  Socket, Read, is_shut, close_socket, parallel_off, terminated, c_string, read_string, read_data,
  uint32_mod,
}
use ztd.Socket.Reader.{left, out_of_bounds, filled, copied, round, parallel_reading}

-- No byte is NUL.
abbrev pub HasNoNul : Bytes → Type 0
HasNoNul [] = Unit
HasNoNul (c ∷ s) = (c ≢ 0) × HasNoNul s

-- A call of `read` that answers with these bytes.
abbrev pub answers : Bytes → Read
answers bytes fd size = some bytes

-- A call of `read` that fails.
abbrev pub fails : Read
fails fd size = none

c_string-terminated :
    (text : Bytes) (k : ℕ) → HasNoNul text → c_string (take k (terminated text)) ≡ take k text
unfolding c_string
c_string-terminated text zero h = refl
c_string-terminated [] (suc zero) h = refl
c_string-terminated [] (suc (suc k)) h = refl
c_string-terminated (c ∷ text) (suc k) h = ground (arith, c_string-terminated text k h.1)

-- `read_string` on an open socket, where the first `k` bytes of what `send_string` sends for a text
-- without NUL have come, gives the first `k` bytes of the text: all of it if it has no more. `k` is
-- positive, and the system gives no more than 255 bytes.
pub read_string-terminated :
    (s : Socket) (text : Bytes) (k : ℕ)
    → is_shut s ≡ false
    → HasNoNul text
    → 0 < k
    → k ≤ 255
    → read_string (answers (take k (terminated text))) s ≡ (s, take k text)
unfolding read_string c_string
read_string-terminated s text zero o h p l = absurd (omega arith)
read_string-terminated s [] (suc k) o h p l = ground arith
read_string-terminated s (c ∷ text) (suc k) o h p l = ground (arith, c_string-terminated text k h.1)

-- Where `read` fails, `read_data` on an open socket returns that it succeeded, with 2 ^ 32 - 1 for the
-- size and nothing stored, and leaves the socket open. The reading thread then reads behind its buffer,
-- of any size but that.
pub read_data-fails :
    (s : Socket) (size : ℕ) (buffer : Bytes) (reads : List Read)
    → is_shut s ≡ false
    → s.parallel ≡ true
    → suc (length buffer) < uint32_mod
    → (read_data fails s size
        ≡ record { socket = s; success = true; stored = []; count = uint32_mod - 1 })
      × (parallel_reading (fails ∷ reads) buffer s ≡ out_of_bounds)
unfolding read_data parallel_reading
read_data-fails s size buffer reads o p l = (ground arith, ground arith)

-- Messages that fit a buffer of the size.
abbrev pub AllFit : ℕ → List Bytes → Type 0
AllFit size [] = Unit
AllFit size (m ∷ ms) = ((m ≢ []) × (length m ≤ size)) × AllFit size ms

round-answers :
    (s : Socket) (buffer m : Bytes)
    → is_shut s ≡ false
    → m ≢ []
    → length m ≤ length buffer
    → length buffer < uint32_mod
    → round buffer (read_data (answers m) s (length buffer))
      ≡ some (record s { data_set = s.data_set ++ m ∷ [] })
unfolding round read_data copied
round-answers s buffer [] o n l w = absurd (n refl)
round-answers s buffer (c ∷ m) o n l w = ground (
  arith,
  take-length (c ∷ m) (drop (length (c ∷ m)) buffer),
  length-append (c ∷ m) (drop (length (c ∷ m)) buffer),
  length-drop (length (c ∷ m)) buffer,
)

round-end :
    (s : Socket) (buffer : Bytes)
    → is_shut s ≡ false
    → round buffer (read_data (answers []) s (length buffer)) ≡ some (close_socket s)
unfolding round read_data copied
round-end s buffer o = ground arith

length-filled :
    (m buffer : Bytes) → length m ≤ length buffer → length (filled m buffer) ≡ length buffer
length-filled m buffer l =
    omega (arith, length-append m (drop (length m) buffer), length-drop (length m) buffer)

parallel_reading-next :
    (s t : Socket) (read : Read) (reads : List Read) (buffer : Bytes)
    → is_shut s ≡ false
    → s.parallel ≡ true
    → round buffer (read_data read s (length buffer)) ≡ some t
    → parallel_reading (read ∷ reads) buffer s
      ≡ parallel_reading reads (filled (read_data read s (length buffer)).stored buffer) t
unfolding parallel_reading
parallel_reading-next s t read reads buffer o p e = ground arith

stored-answers :
    (s : Socket) (m : Bytes) (size : ℕ)
    → is_shut s ≡ false
    → (read_data (answers m) s size).stored ≡ m
unfolding read_data
stored-answers s m size o = ground arith

-- The reading thread of an open socket, where `read` gives the messages one by one, each of them not
-- empty and no longer than the buffer, and then the end of the stream: it stores all of them behind
-- the data that is there, in order, closes the socket and leaves its loop.
pub parallel_reading-messages :
    (messages : List Bytes) (s : Socket) (buffer : Bytes)
    → is_shut s ≡ false
    → s.parallel ≡ true
    → length buffer < uint32_mod
    → AllFit (length buffer) messages
    → parallel_reading (map answers messages ++ answers [] ∷ []) buffer s
      ≡ left (close_socket (record s { data_set = s.data_set ++ messages }))
parallel_reading-messages [] s buffer o p w a =
    parallel_reading-next s _ (answers []) [] buffer o p (round-end s buffer o)
    ∙ unfold parallel_reading close_socket parallel_off in rw append-nil
parallel_reading-messages (m ∷ ms) s buffer o p w a =
    let t = record s { data_set = s.data_set ++ m ∷ [] } in
    let e = length-filled m buffer a.0.1 in
    parallel_reading-next s t (answers m) (map answers ms ++ answers [] ∷ []) buffer o p
      (round-answers s buffer m o a.0.0 a.0.1 w)
    ∙ (rw (stored-answers s m (length buffer) o) (
        parallel_reading-messages ms t (filled m buffer) o p (omega (arith, e)) (rw e a.1)
        ∙ rw append_assoc))
