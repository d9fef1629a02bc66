-- ===== src/Stream/Examples.antt =====
-- The theorem of `net.Stream` for a text in pieces of one and two bytes, the sentinel across two of
-- them.
use net.Prelude.{refl, [], ◌∷◌, arith}
use net.Stream.{text, Buffered, read}
use net.Stream.Split.{split}
use net.Stream.Buffer.{zeros}
use net.Stream.Read.{IsReady, Reads, read_lem}

abbrev fresh : Buffered
fresh = record {
  buffer = zeros 1024;
  it = 0;
  end = 0;
  incoming = 65 ∷ 66 ∷ 13 ∷ 10 ∷ 67 ∷ [];
  sizes = 2 ∷ 1 ∷ 1 ∷ 2 ∷ 1 ∷ 1 ∷ [];
}

fresh-IsReady : IsReady fresh
fresh-IsReady = (
  record { full = refl; ordered = omega arith; within = omega arith },
  (
    (omega arith, (omega arith, (omega arith, (omega arith, (omega arith, (omega arith, tt)))))),
    omega arith,
  ),
)

read_lem_example :
    Reads
      (read (text (13 ∷ 10 ∷ [])) [] fresh)
      []
      (65 ∷ 66 ∷ 13 ∷ 10 ∷ 67 ∷ [])
      (split (13 ∷ 10 ∷ []) (65 ∷ 66 ∷ 13 ∷ 10 ∷ 67 ∷ []))
read_lem_example = read_lem (text (13 ∷ 10 ∷ [])) [] fresh (omega arith) (omega arith) fresh-IsReady
