-- ===== src/Socket/Ssl/Reply.antt =====
-- The answers that the loops of luasocket's ssl.c go by.
use lilush.Common.{ℕ, zero, Bool, true, false, Bytes, ℤ, pos}
use lilush.Socket.Io.{IoResult, io_done, io_timeout, lsec_io_ssl}
use lilush.Socket.Ssl.{SslError}

-- What wolfSSL answers to one call, and the kernel to the wait that may follow it: `ret` is what
-- wolfSSL_accept, _connect, _read or _write returns, `text` what wolfSSL_read has read, `wait` what
-- socket_waitfd returns.
pub record Reply : Type 0 where
  pub ret : ℤ
  pub error : SslError
  pub wait : IoResult
  pub errno : ℕ
  pub text : Bytes

-- A time-out is reported by the error of the session; with IO_DONE the loop goes on.
unfoldable pub waited {ℓ} : {R : Type ℓ} → IoResult → (IoResult → R) → R → R
waited io_done stop more = more
waited io_timeout stop more = stop lsec_io_ssl
waited err stop more = stop err

abbrev pub is_zero : ℤ → Bool
is_zero (pos zero) = true
is_zero _ = false
