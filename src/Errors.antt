-- ===== src/Errors.antt =====
-- The error values: error.go, and the io errors that the code returns or tells apart.
use adaptivemsg_go.Prelude.{String, ap, ℕ, ◌≡◌}

pub data Error : Type 0 where
  codec_failed : String → Error
  frame_too_large : ℕ → Error
  unsupported_frame_version : ℕ → Error
  unsupported_codec : ℕ → Error
  no_common_codec : Error
  too_many_codecs : ℕ → Error
  bad_handshake_magic : Error
  unknown_message : String → Error
  compact_field_count : ℕ → ℕ → Error
  connect_timeout : Error
  resume_rejected : String → Error
  recv_timeout : Error
  type_mismatch : String → String → Error
  conn_closed : Error
  remote_error : String → String → Error
  handler_task_busy : Error
  concurrent_recv : Error
  invalid_message : String → Error
  server_closed : Error
  unsupported_transport : String → Error
  -- io.EOF, io.ErrUnexpectedEOF, io.ErrShortWrite, and any other error of the transport.
  eof : Error
  unexpected_eof : Error
  short_write : Error
  transport_failed : ℕ → Error

-- Go's (value, error) pair.
pub data Result {ℓ} (A : Type ℓ) : Type ℓ where
  ok : A → Result A
  err : Error → Result A

-- `if err != nil { return err }` behind a call that has no effect.
abbrev pub and_then {ℓ κ} : {A : Type ℓ} {B : Type κ} → Result A → (A → Result B) → Result B
and_then (ok a) f = f a
and_then (err e) f = err e

pub and_then-ok {ℓ κ} :
    {A : Type ℓ} {B : Type κ} (r : Result A) (f : A → Result B) {a : A}
    → r ≡ ok a
    → and_then r f ≡ f a
and_then-ok r f e = ap (λ s. and_then s f) e
