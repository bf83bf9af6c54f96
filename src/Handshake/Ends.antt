-- ===== src/Handshake/Ends.antt =====
-- Each end of the handshake, reduced to what it sends and to its decision.
use adaptivemsg_go.Bytes.{Bytes, put_u32}
use adaptivemsg_go.Codecs.{CodecRegistry}
use adaptivemsg_go.Errors.{Result, unsupported_frame_version}
use adaptivemsg_go.Frame.{ConnConfig}
use adaptivemsg_go.Handshake.{
  accept_reply, answer, bad_magic, check, client_request, handshake_client, handshake_server,
  is_supported_protocol_version, validate_codec_list,
}
use adaptivemsg_go.Port.{>>=-lift, >>=-ok, Port, read_full, write_full}
use adaptivemsg_go.Port.Transfer.{read_full-append, read_full-written, write_full_all}
use adaptivemsg_go.Prelude.{
  Bool, List, [], ap, append_assoc, arith, copy_at, if◌then◌else◌, length, none, overwrite, refl,
  replicate, set, some, suc, sym, true, ℕ, ◌%◌, ◌++◌, ◌+◌, ◌<◌, ◌∙◌, ◌∷◌, ◌≡◌,
}

-- The fixed part of a request, byte by byte.
abbrev pub request_header : ℕ → ℕ → ℕ → Bytes
request_header n max_frame version = 65 ∷ 77 ∷ version ∷ n ∷ 0 ∷ 0 ∷ 0 ∷ 0 ∷ put_u32 max_frame

-- Filling an array of the source's length gives the source.
overwrite-replicate : (src : Bytes) → overwrite (replicate (length src) 0) src ≡ src
overwrite-replicate [] = refl
overwrite-replicate (x ∷ src) = ap (λ t. x ∷ t) (overwrite-replicate src)

zeros :
    (n : ℕ)
    → replicate {A = ℕ} (12 + n) 0 ≡ 0 ∷ 0 ∷ 0 ∷ 0 ∷ 0 ∷ 0 ∷ 0 ∷ 0 ∷ 0 ∷ 0 ∷ 0 ∷ 0 ∷ replicate n 0
zeros n =
    ap (λ (k : ℕ). replicate {A = ℕ} k 0)
      {y = suc (suc (suc (suc (suc (suc (suc (suc (suc (suc (suc (suc n)))))))))))} (omega arith)

pub client_request-eq :
    (codecs : List ℕ) (max_frame version : ℕ)
    → length codecs < 256
    → client_request codecs max_frame version
      ≡ request_header (length codecs) max_frame version ++ codecs
unfolding client_request
client_request-eq codecs max_frame version h =
    ap fill (zeros (length codecs))
    ∙ ap (λ t. request_header (length codecs % 256) max_frame version ++ t)
        (overwrite-replicate codecs)
    ∙ ap (λ (k : ℕ). request_header k max_frame version ++ codecs) (omega arith)
  where
    fill : Bytes → Bytes
    fill b =
        copy_at
          (copy_at (set (set (copy_at b 0 (65 ∷ 77 ∷ [])) 2 version) 3 (length codecs % 256)) 8
            (put_u32 max_frame))
          12 codecs

-- What `handshake_client` sends, and how it answers a reply that is there to be read.
pub handshake_client-eq :
    (registry : CodecRegistry) (codecs : List ℕ) (max_frame version : ℕ) (p : Port)
    (reply rest : Bytes)
    → validate_codec_list registry codecs ≡ none
    → is_supported_protocol_version version ≡ true
    → p.script ≡ []
    → length reply ≡ 12
    → p.input ≡ reply ++ rest
    → handshake_client registry codecs max_frame version p ≡ (
      accept_reply registry codecs version reply,
      record p { input = rest; written = p.written ++ client_request codecs max_frame version },
    )
unfolding handshake_client
handshake_client-eq registry codecs max_frame version p reply rest hv hs e hl hi =
    >>=-ok (check (validate_codec_list registry codecs)) _ (ap (λ o. check o p) hv)
    ∙ >>=-ok
        (check (
          if is_supported_protocol_version version
          then none
          else some (unsupported_frame_version version)))
        _ (ap (λ b. check (if b then none else some (unsupported_frame_version version)) p) hs)
    ∙ >>=-ok (write_full request) _ (write_full_all request p e)
    ∙ >>=-ok (read_full 12) _
        (ap (λ n. read_full n p1) (sym hl) ∙ read_full-append reply rest p1 hi)
  where
    request : Bytes
    request = client_request codecs max_frame version

    p1 : Port
    p1 = record p { written = p.written ++ request }

-- Whatever the client reads, it sends its request.
pub handshake_client-written :
    (registry : CodecRegistry) (codecs : List ℕ) (max_frame version : ℕ) (p : Port)
    → validate_codec_list registry codecs ≡ none
    → is_supported_protocol_version version ≡ true
    → p.script ≡ []
    → (handshake_client registry codecs max_frame version p).1.written
      ≡ p.written ++ client_request codecs max_frame version
unfolding handshake_client
handshake_client-written registry codecs max_frame version p hv hs e =
    ap (λ (r : Result ConnConfig × Port). r.1.written)
      (>>=-ok (check (validate_codec_list registry codecs)) _ (ap (λ o. check o p) hv)
        ∙ >>=-ok
            (check (
              if is_supported_protocol_version version
              then none
              else some (unsupported_frame_version version)))
            _ (ap (λ b. check (if b then none else some (unsupported_frame_version version)) p) hs)
        ∙ >>=-ok (write_full request) _ (write_full_all request p e))
    ∙ ap (λ (r : Port). r.written)
        (>>=-lift (read_full 12) (accept_reply registry codecs version) p1)
    ∙ read_full-written 12 p1
  where
    request : Bytes
    request = client_request codecs max_frame version

    p1 : Port
    p1 = record p { written = p.written ++ request }

-- The server reads the request and decides.
pub handshake_server-eq :
    (registry : CodecRegistry) (offered codecs : List ℕ) (client_max max_frame version : ℕ)
    (recovery : Bool) (q : Port) (rest : Bytes)
    → validate_codec_list registry codecs ≡ none
    → length offered < 256
    → q.input ≡ client_request offered client_max version ++ rest
    → handshake_server registry codecs max_frame recovery q
      ≡ answer registry codecs max_frame recovery
          (request_header (length offered) client_max version)
          (record q { input = offered ++ rest })
unfolding handshake_server
handshake_server-eq registry offered codecs client_max max_frame version recovery q rest hv hl hi =
    >>=-ok (check (validate_codec_list registry codecs)) _ (ap (λ o. check o q) hv)
    ∙ >>=-ok (read_full 12) _ (
        read_full-append (request_header (length offered) client_max version) (offered ++ rest) q (
          hi
          ∙ ap (λ b. b ++ rest) (client_request-eq offered client_max version hl)
          ∙ append_assoc (request_header (length offered) client_max version) offered rest))
    ∙ unfold bad_magic in refl
