-- ===== src/Socket/Io.antt =====
-- What the transport functions of luasocket return (io.h, ssl.h), and what a `recv` function answers.
use lilush.Common.{ℕ, Bytes, Bool, true, false}

-- The IO_* codes, LSEC_IO_SSL, and an `errno`.
pub data IoResult : Type 0 where
  io_done io_timeout io_closed io_unknown lsec_io_ssl : IoResult
  io_errno : ℕ → IoResult

abbrev pub is_done : IoResult → Bool
is_done io_done = true
is_done _ = false

-- BUF_SIZE
abbrev pub buf_size : ℕ
buf_size = 8192

-- One answer of `io->recv`, which is always asked for BUF_SIZE bytes: its code and the bytes.
pub record Answer : Type 0 where
  pub err : IoResult
  pub got : Bytes
