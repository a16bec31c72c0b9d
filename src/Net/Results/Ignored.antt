-- ===== src/Net/Results/Ignored.antt =====
-- query_result_serializer.cpp: what `deserialize` makes of the rows of a result.
use deltabase_c.Prelude.{append-nil, ℕ, ◌≡◌, refl, List, [], ◌++◌, length, some, arith, Bool, true}
use deltabase_c.Stream.Word.{of_le}
use deltabase_c.Stream.{
  ReadOnlyMemoryStream, open_stream, Parses, Parses-bind, Parses-pure, Parses-map,
  Parses-read_exactly, read_word, ◌>>=◌, pure, read_many,
}
use deltabase_c.Types.Value.{DataRow}
use deltabase_c.Net.Results.{OutputColumn, read_u64_as, deserialize, read_row, read_rows}

Parses-read_u64_as :
    (out : ℕ) (big_endian : Bool) (bs : List ℕ)
    → length bs ≡ 8
    → Parses (read_u64_as out big_endian) bs out
unfolding read_u64_as read_word
Parses-read_u64_as out big_endian bs h =
    Parses-map (λ v. out) (Parses-map of_le (Parses-read_exactly 8 bs h))

Parses-deserialize :
    (made : DataRow) (first second : List ℕ)
    → length first ≡ 8
    → length second ≡ 8
    → Parses (deserialize made) (first ++ second) ([], [])
unfolding deserialize read_many
Parses-deserialize made first second h k = Parses-bind _ (Parses-read_u64_as 0 true first h) (
    Parses-bind (read_rows made) {bs = []} {cs = second} (Parses-pure []) (
      rw append-nil at (
        Parses-bind (λ row_count. read_many (read_row made) row_count >>= λ rows. pure ([], rows))
          (Parses-read_u64_as 0 true second k)
          (Parses-bind {B = List OutputColumn × List DataRow} (λ rows. pure ([], rows)) {bs = []}
            {cs = []} (Parses-pure []) (Parses-pure ([], []))))))

-- From any sixteen bytes and whatever stands behind them, the deserializer reads no column and no row.
pub deserialize-nothing :
    (made : DataRow) (first second rest : List ℕ)
    → length first ≡ 8
    → length second ≡ 8
    → (s : ReadOnlyMemoryStream) × (deserialize made (open_stream (first ++ second ++ rest))
        ≡ some (([], []), s))
unfolding open_stream
deserialize-nothing made first second rest h k =
    let bytes = first ++ second ++ rest in
    (_, (Parses-deserialize made first second h k).at (open_stream bytes) rest (omega arith) refl)
