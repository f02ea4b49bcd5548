-- ===== src/Streaming/Tests.antt =====
-- Streams into a list.
use lohpi.Common.{ℕ, ◌≡◌, refl, sym, ◌≢◌, none, some, List, [], ◌∷◌, ◌++◌}
use lohpi.Extern.Memory.{some-eq}
use lohpi.Streaming.{
  no_error, end_of_file, other_error, ReadResult, finished, ResponseWriter,
  stream_to_response_writer,
}
use lohpi.Streaming.Copy.{bytes_of, stream_copies}

in_memory : ResponseWriter
in_memory = record {
  Writer = List ℕ;
  sent = λ w. w;
  write = λ w bytes. some (w ++ bytes);
  write_sent = λ w bytes w' h. sym (some-eq _ _ h);
}

abbrev reads : List ReadResult
reads = (1 ∷ 2 ∷ [], no_error) ∷ ([], no_error) ∷ (3 ∷ [], other_error) ∷ []

no_bytes : in_memory.Writer
unfolding in_memory
no_bytes = []

takes_all : (v : in_memory.Writer) (bytes : List ℕ) → in_memory.write v bytes ≢ none
unfolding in_memory
takes_all v bytes h = cc

stream_copies_example :
    let result = stream_to_response_writer in_memory (reads ++ ([], end_of_file) ∷ []) no_bytes in
    (result.1 ≡ finished) × (in_memory.sent result.0 ≡ in_memory.sent no_bytes ++ bytes_of reads)
stream_copies_example = stream_copies in_memory reads [] no_bytes takes_all (refl, tt)
