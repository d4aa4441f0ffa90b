-- ===== src/Protocol/Input.antt =====
-- Go's `io.Reader` and `io.ReadFull`, as `internal/protocol/messages.go` uses them: a reader is the
-- bytes that are still to come and the error that stands behind them.
use token_go.Base.{ℕ, Bytes, ite, Result, ok, err, length, take, drop, dec_lt, bytes_discrete, []}

-- `failed` stands for any error but the end of the input: a reset stream, a passed deadline.
pub data ReadError : Type 0 where
  eof unexpected_eof failed : ReadError

pub record Reader : Type 0 where
  pub pending : Bytes
  pub ending : ReadError

-- What `io.ReadFull` returns when the reader has too few bytes.
unfoldable pub short_error : Reader → ReadError
unfolding bytes_discrete
short_error r = elim r.ending [
  | eof ↦ ite (bytes_discrete r.pending []) eof unexpected_eof
  | unexpected_eof ↦ unexpected_eof
  | failed ↦ failed
]

-- `io.ReadFull(r, make([]byte, n))`: the bytes, and the reader behind them.
unfoldable pub read_full : ℕ → Reader → Result ReadError (Bytes × Reader)
unfolding short_error dec_lt
read_full n r =
    ite (dec_lt (length r.pending) n) (err (short_error r))
      (ok (take n r.pending, record r { pending = drop n r.pending }))
