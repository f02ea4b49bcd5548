-- ===== src/Streaming.antt =====
-- `StreamToResponseWriter` of core/util/util.go: what is read is written until the reader is at its
-- end. The reader is the list of what its calls return; the list may be used up before the end.
pub mod Copy
pub mod Json
mod Tests
use lohpi.Common.{ℕ, ◌≡◌, Option, none, some, List, [], ◌∷◌, ◌++◌}

-- the error that a call of `Read` returns along with its bytes
pub data ReadError : Type 0 where
  no_error end_of_file other_error : ReadError

-- one call of `Read`
abbrev pub ReadResult : Type 0
ReadResult = List ℕ × ReadError

pub data StreamResult : Type 0 where
  finished : StreamResult
  failed : StreamResult
  reading : StreamResult

-- a response writer, and what it has sent; `none` is the error result
pub record ResponseWriter : Type 1 where
  pub Writer : Type 0
  pub sent : Writer → List ℕ
  pub write : Writer → List ℕ → Option Writer
  pub write_sent :
      (w : Writer) (bytes : List ℕ) (w' : Writer)
      → write w bytes ≡ some w'
      → sent w' ≡ sent w ++ bytes

module _ (writer : ResponseWriter) where
  open writer use {Writer, write}

  -- the round after a write: its error takes the place of the error of the read
  abbrev pub after_write :
      (Writer → Writer × StreamResult) → Writer → Option Writer → Writer × StreamResult
  after_write go w none = (w, failed)
  after_write go w (some w') = go w'

  -- the round after a read of no bytes
  abbrev pub after_nothing :
      (Writer → Writer × StreamResult) → ReadError → Writer → Writer × StreamResult
  after_nothing go no_error w = go w
  after_nothing go end_of_file w = (w, finished)
  after_nothing go other_error w = (w, failed)

  -- `StreamToResponseWriter`
  unfoldable pub stream_to_response_writer : List ReadResult → Writer → Writer × StreamResult
  stream_to_response_writer [] w = (w, reading)
  stream_to_response_writer (([], e) ∷ reads) w =
      after_nothing (stream_to_response_writer reads) e w
  stream_to_response_writer ((b ∷ bytes, e) ∷ reads) w =
      after_write (stream_to_response_writer reads) w (write w (b ∷ bytes))
