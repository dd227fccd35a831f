-- ===== src/Tests/Streams.antt =====
-- A concrete attachment stream.
use ceal_cli.Base.{ℕ, List, [], ◌∷◌, refl, arith}
use ceal_cli.Base.Outcome.{ok}
use ceal_cli.AttachmentStream.Queue.{ByteQueue, flat, Takes, take_bytes-Takes}
use ceal_cli.AttachmentStream.Reading.{IsReadOf, read_records-IsReadOf}
use ceal_cli.AttachmentStream.{Protocol, read_records}

abbrev three_chunks : ByteQueue
three_chunks = record { chunks = (1 ∷ 2 ∷ []) ∷ [] ∷ (3 ∷ 4 ∷ []) ∷ []; buffered = 4 }

take_bytes-Takes_example : Takes 3 three_chunks
take_bytes-Takes_example = take_bytes-Takes 3 three_chunks refl (omega arith)

-- Records of bytes, behind a magic of two.
abbrev protocol : Protocol (List ℕ)
protocol = record {
  magic = 1 ∷ 2 ∷ [];
  record_prefix_bytes = 8;
  max_header_bytes = 4;
  max_attachment_bytes = 4;
  max_record_bytes = 8;
  decode = λ bytes. ok bytes;
}

-- The magic and two records, cut where no item ends.
abbrev stream : List (List ℕ)
stream =
    (1 ∷ [])
    ∷ (2 ∷ 0 ∷ 0 ∷ 0 ∷ [])
    ∷ (1 ∷ 0 ∷ 0 ∷ 0 ∷ 0 ∷ 9 ∷ 0 ∷ 0 ∷ 0 ∷ 1 ∷ 0 ∷ [])
    ∷ (0 ∷ 0 ∷ 1 ∷ 7 ∷ 8 ∷ [])
    ∷ []

read_records-IsReadOf_example : IsReadOf protocol (flat stream) (read_records protocol stream)
read_records-IsReadOf_example = read_records-IsReadOf protocol stream (omega arith)
