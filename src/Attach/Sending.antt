-- ===== src/Attach/Sending.antt =====
-- What the attach exchange puts on the wire.
use adaptivemsg_go.Attach.{
  AttachRequest, AttachResponse, EncodedOptions, attach_request_bytes, attach_response_bytes,
  decode_options, encode_options, encoded_options, read_attach_response, write_attach_request,
  write_attach_response,
}
use adaptivemsg_go.Attach.Options.{FitsWire, encode_options-eq, encoded}
use adaptivemsg_go.Errors.{Result, err, ok}
use adaptivemsg_go.Port.{>>=-ok, Io, Port, continue, lift, read_full}
use adaptivemsg_go.Port.Transfer.{read_full-written, write_full_all}
use adaptivemsg_go.Prelude.{[], ap, refl, ◌++◌, ◌∙◌, ◌≡◌}
use adaptivemsg_go.Recovery.{normalized_negotiated}
use adaptivemsg_go.Recovery.Defaults.{IsUsable, normalized_negotiated-id}

pub continue-written :
    {A B : Type 0} (r : Result A × Port) (f : A → Io B)
    → ((a : A) (p : Port) → (f a p).1.written ≡ p.written)
    → (continue r f).1.written ≡ r.1.written
continue-written (ok a, p) f h = h a p
continue-written (err e, p) f h = refl

pub read_attach_response-written : (p : Port) → (read_attach_response p).1.written ≡ p.written
unfolding read_attach_response
read_attach_response-written p =
    continue-written (read_full 60 p) _
      (λ buf q. continue-written (lift (decode_options (encoded_options buf)) q) _ (λ o r. refl))
    ∙ read_full-written 60 p

pub write_attach_request-ok :
    (req : AttachRequest) (p : Port)
    → p.script ≡ []
    → write_attach_request req p
      ≡ (ok tt, record p { written = p.written ++ attach_request_bytes req })
unfolding write_attach_request
write_attach_request-ok req p e = write_full_all (attach_request_bytes req) p e

pub write_attach_response-ok :
    (resp : AttachResponse) (p : Port)
    → FitsWire resp.options
    → p.script ≡ []
    → write_attach_response resp p ≡ (
      ok tt,
      record p { written = p.written ++ attach_response_bytes resp (encoded resp.options) },
    )
unfolding write_attach_response
write_attach_response-ok resp p f e =
    >>=-ok (lift (encode_options resp.options)) _ {p = p}
      (ap (λ (r : Result EncodedOptions). (r, p)) (encode_options-eq resp.options f))
    ∙ write_full_all (attach_response_bytes resp (encoded resp.options)) p e

-- Encoding normalises, so the options may be normalised before.
pub write_attach_response-normalized :
    (resp : AttachResponse) (p : Port)
    → IsUsable (normalized_negotiated resp.options)
    → write_attach_response resp p
      ≡ write_attach_response (record resp { options = normalized_negotiated resp.options }) p
unfolding write_attach_response encode_options attach_response_bytes
write_attach_response-normalized resp p u =
    rw (normalized_negotiated-id (normalized_negotiated resp.options) u) refl
