-- ===== src/Attach/Responses.antt =====
-- An attach response on its way from the server to the client.
use adaptivemsg_go.Attach.{
  AttachResponse, EncodedOptions, attach_response_bytes, decode_options, encode_options,
  encoded_options, read_attach_response, write_attach_response,
}
use adaptivemsg_go.Attach.Fronts.{filled, front, length-front, read_id, read_secret}
use adaptivemsg_go.Attach.Options.{FitsWire, encode_options-eq, encoded}
use adaptivemsg_go.Bytes.{
  Bytes, get_u32, get_u32-put_u32, get_u64, get_u64-put_u64, put_u32, put_u64,
}
use adaptivemsg_go.Errors.{Result, err, ok}
use adaptivemsg_go.Port.{>>=-err, >>=-ok, Port, lift, read_full}
use adaptivemsg_go.Port.Transfer.{read_full-append, write_full_all}
use adaptivemsg_go.Prelude.{
  [], ap, arith, copy_at, copy_at-skip, length, length-append, refl, replicate, slice, slice-skip,
  sym, ℕ, ◌++◌, ◌+◌, ◌<◌, ◌^◌, ◌∙◌, ◌≡◌,
}
use adaptivemsg_go.Recovery.{NegotiatedRecoveryOptions}

-- The tail of a response.
abbrev tail_bytes : ℕ → EncodedOptions → Bytes
tail_bytes seq e =
    put_u64 seq
    ++ put_u32 e.ack_every
    ++ put_u32 e.ack_delay_ms
    ++ put_u32 e.heartbeat_interval_ms
    ++ put_u32 e.heartbeat_timeout_ms

-- A response that the server writes: with usable options that fit the wire.
pub record IsWritable (resp : AttachResponse) : Type 0 where
  pub id_length : length resp.connection_id ≡ 16
  pub secret_length : length resp.resume_secret ≡ 16
  pub seq_u64 : resp.last_recv_seq < 2 ^ 64
  pub options_fit : FitsWire resp.options

-- The response with the options as the client decodes them, or why it refuses them.
abbrev pub with_options : AttachResponse → Result NegotiatedRecoveryOptions → Result AttachResponse
with_options resp (ok o) = ok (record resp { options = o })
with_options resp (err x) = err x

module _ (resp : AttachResponse) (v : IsWritable resp) where
  abbrev head : Bytes
  head = front resp.status resp.connection_id resp.resume_secret

  abbrev options : EncodedOptions
  options = encoded resp.options

  length-head : length head ≡ 36
  length-head =
      length-front resp.status resp.connection_id resp.resume_secret v.id_length v.secret_length

  at :
      (tail src : Bytes) (n j : ℕ)
      → n ≡ 36 + j
      → copy_at (head ++ tail) n src ≡ head ++ copy_at tail j src
  at tail src n j e = copy_at-skip head tail src n j (omega (arith, e, length-head))

  response_bytes-eq :
      attach_response_bytes resp options ≡ head ++ tail_bytes resp.last_recv_seq options
  unfolding attach_response_bytes
  response_bytes-eq =
      ap finish (
        filled resp.status resp.connection_id resp.resume_secret v.id_length v.secret_length
          (replicate 24 0))
      ∙ ap (λ t. copy_at (copy_at (copy_at (copy_at t 44 ae) 48 ad) 52 hi) 56 ht)
          (at (replicate 24 0) sq 36 0 refl)
      ∙ ap (λ t. copy_at (copy_at (copy_at t 48 ad) 52 hi) 56 ht) (at _ ae 44 8 refl)
      ∙ ap (λ t. copy_at (copy_at t 52 hi) 56 ht) (at _ ad 48 12 refl)
      ∙ ap (λ t. copy_at t 56 ht) (at _ hi 52 16 refl)
      ∙ at _ ht 56 20 refl
    where
      sq : Bytes
      sq = put_u64 resp.last_recv_seq

      ae : Bytes
      ae = put_u32 options.ack_every

      ad : Bytes
      ad = put_u32 options.ack_delay_ms

      hi : Bytes
      hi = put_u32 options.heartbeat_interval_ms

      ht : Bytes
      ht = put_u32 options.heartbeat_timeout_ms

      finish : Bytes → Bytes
      finish t = copy_at (copy_at (copy_at (copy_at (copy_at t 36 sq) 44 ae) 48 ad) 52 hi) 56 ht

  abbrev response : Bytes
  response = head ++ tail_bytes resp.last_recv_seq options

  -- A field behind the tokens.
  field :
      (lo hi l h : ℕ)
      → lo ≡ 36 + l
      → hi ≡ 36 + h
      → slice response lo hi ≡ slice (tail_bytes resp.last_recv_seq options) l h
  field lo hi l h e f =
      slice-skip head (tail_bytes resp.last_recv_seq options) lo hi l h
        (omega (arith, e, length-head)) (omega (arith, f, length-head))

  options_read : encoded_options response ≡ options
  unfolding encoded_options
  options_read = λ i. record {
    ack_every =
        (ap get_u32 (field 44 48 8 12 refl refl)
            ∙ get_u32-put_u32 options.ack_every v.options_fit.ack_every_u32)
          i;
    ack_delay_ms =
        (ap get_u32 (field 48 52 12 16 refl refl)
            ∙ get_u32-put_u32 options.ack_delay_ms v.options_fit.ack_delay_fits)
          i;
    heartbeat_interval_ms =
        (ap get_u32 (field 52 56 16 20 refl refl)
            ∙ get_u32-put_u32 options.heartbeat_interval_ms v.options_fit.interval_fits)
          i;
    heartbeat_timeout_ms =
        (ap get_u32 (field 56 60 20 24 refl refl)
            ∙ get_u32-put_u32 options.heartbeat_timeout_ms v.options_fit.timeout_fits)
          i;
  }

  -- What the client makes of the response that the server wrote
  pub response_received :
      (p q : Port) (rest : Bytes)
      → p.script ≡ []
      → p.written ≡ []
      → q.input ≡ (write_attach_response resp p).1.written ++ rest
      → (r : Result NegotiatedRecoveryOptions) → decode_options options ≡ r
      → ((write_attach_response resp p).0 ≡ ok tt)
        × (read_attach_response q ≡ (with_options resp r, record q { input = rest }))
  unfolding write_attach_response read_attach_response
  response_received p q rest e w i r d =
      (ap (λ (t : Result (Unit {0}) × Port). t.0) sent, read_with r d)
    where
      q1 : Port
      q1 = record q { input = rest }

      sent :
          write_attach_response resp p
          ≡ (ok tt, record p { written = p.written ++ attach_response_bytes resp options })
      sent =
          >>=-ok (lift (encode_options resp.options)) _ {p = p}
            (ap (λ r. (r, p)) (encode_options-eq resp.options v.options_fit))
          ∙ write_full_all (attach_response_bytes resp options) p e

      given : q.input ≡ response ++ rest
      given =
          i
          ∙ ap (λ (r : Result (Unit {0}) × Port). r.1.written ++ rest) sent
          ∙ ap (λ t. (t ++ attach_response_bytes resp options) ++ rest) w
          ∙ ap (λ t. t ++ rest) response_bytes-eq

      size : length response ≡ 60
      size = omega (arith, length-append head (tail_bytes resp.last_recv_seq options), length-head)

      parsed :
          (o : NegotiatedRecoveryOptions)
          → record {
            status = resp.status;
            connection_id = slice response 4 20;
            resume_secret = slice response 20 36;
            last_recv_seq = get_u64 (slice response 36 44);
            options = o;
          }
            ≡ record resp { options = o }
      parsed o = λ j. record {
        status = resp.status;
        connection_id =
            read_id resp.status resp.connection_id resp.resume_secret v.id_length v.secret_length
              (tail_bytes resp.last_recv_seq options) j;
        resume_secret =
            read_secret resp.status resp.connection_id resp.resume_secret v.id_length
              v.secret_length (tail_bytes resp.last_recv_seq options) j;
        last_recv_seq =
            (ap get_u64 (field 36 44 0 8 refl refl) ∙ get_u64-put_u64 resp.last_recv_seq v.seq_u64)
              j;
        options = o;
      }

      header_read : read_full 60 q ≡ (ok response, q1)
      header_read = ap (λ n. read_full n q) (sym size) ∙ read_full-append response rest q given

      read_with :
          (r : Result NegotiatedRecoveryOptions)
          → decode_options options ≡ r
          → read_attach_response q ≡ (with_options resp r, q1)
      read_with (ok o) d =
          >>=-ok (read_full 60) _ header_read
          ∙ >>=-ok (lift (decode_options (encoded_options response))) _ {p = q1}
              (ap (λ t. (t, q1)) (ap decode_options options_read ∙ d))
          ∙ ap (λ t. (ok t, q1)) (parsed o)
      read_with (err x) d =
          >>=-ok (read_full 60) _ header_read
          ∙ >>=-err (lift (decode_options (encoded_options response))) _ {p = q1}
              (ap (λ t. (t, q1)) (ap decode_options options_read ∙ d))
