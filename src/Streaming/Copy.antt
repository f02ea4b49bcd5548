-- ===== src/Streaming/Copy.antt =====
-- A stream sends every byte that is read before the end.
use mathlib.Core.List.{append-nil, append_assoc}
use lohpi.Common.{Option-cases, ℕ, ◌≡◌, refl, ap, ◌∙◌, ◌≢◌, inl, inr, none, List, [], ◌∷◌, ◌++◌}
use lohpi.Streaming.{
  no_error, end_of_file, ReadResult, finished, ResponseWriter, stream_to_response_writer,
}

-- the reads that do not end the stream: an error that comes with bytes is not looked at
abbrev pub Continues : List ReadResult → Type 0
Continues [] = Unit
Continues (([], e) ∷ reads) = (e ≡ no_error) × Continues reads
Continues ((b ∷ bytes, e) ∷ reads) = Continues reads

-- the bytes of the reads, one after the other
abbrev pub bytes_of : List ReadResult → List ℕ
bytes_of [] = []
bytes_of ((bytes, e) ∷ reads) = bytes ++ bytes_of reads

module _ (writer : ResponseWriter) where
  open writer use {Writer, sent, write, write_sent}

  -- Where the writer takes what it is given, and the reads before one that has no bytes and the
  -- end each have bytes or no error, the stream is finished and has sent their bytes in order. An
  -- error that comes with bytes does not stop it.
  pub stream_copies :
      (reads rest : List ReadResult) (w : Writer)
      → ((v : Writer) (bytes : List ℕ) → write v bytes ≢ none)
      → Continues reads
      → let result = stream_to_response_writer writer (reads ++ ([], end_of_file) ∷ rest) w in
        (result.1 ≡ finished) × (sent result.0 ≡ sent w ++ bytes_of reads)
  unfolding stream_to_response_writer
  stream_copies [] rest w accepts h = (refl, rw append-nil refl)
  stream_copies (([], e) ∷ reads) rest w accepts (calm, h) =
      rw calm (stream_copies reads rest w accepts h)
  stream_copies ((b ∷ bytes, e) ∷ reads) rest w accepts h =
      elim (Option-cases (write w (b ∷ bytes))) [
        | inl refused ↦ absurd (accepts w (b ∷ bytes) refused)
        | inr (w', written) ↦
            let (ended, copied) = stream_copies reads rest w' accepts h in
            rw written (
              ended,
              copied
                  ∙ ap (λ t. t ++ bytes_of reads) (write_sent w (b ∷ bytes) w' written)
                  ∙ append_assoc (sent w) (b ∷ bytes) (bytes_of reads),
            )
      ]
