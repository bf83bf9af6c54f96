-- ===== src/Frame/RoundTrip.antt =====
-- Frames written to a transport are read back, one after the other.
use adaptivemsg_go.Bytes.{Bytes}
use adaptivemsg_go.Errors.{Result, err, frame_too_large, ok}
use adaptivemsg_go.Frame.{
  ConnConfig, Frame, Header, build_header, count_read, count_written, header_array, max_u32,
  read_frame_from, read_payload, write_frame_no_flush,
}
use adaptivemsg_go.Frame.HeaderBytes.{
  IsSendable, IsValidConfig, conn_header_len-eq, header_len_of, length-header_array,
  parse_header-header_array, received,
}
use adaptivemsg_go.Port.{>>=-ok, Io, Port, lift, read_full, return, write_full, ◌>>=◌, ◌>>◌}
use adaptivemsg_go.Port.Transfer.{read_full-append, write_full_all}
use adaptivemsg_go.Prelude.{
  All, List, [], ap, append-nil, append_assoc, arith, if◌then◌else◌, length, ltb, ltb-false, map,
  refl, suc, sym, take, zero, ℕ, ◌++◌, ◌+◌, ◌∙◌, ◌∷◌, ◌≡◌,
}

-- The bytes of a frame on the wire.
abbrev pub frame_bytes : ConnConfig → Frame → Bytes
frame_bytes c f =
    take (header_len_of c.version) (header_array c f.stream_id f.seq f.flags (length f.payload))
    ++ f.payload

-- The counters of the reader or the writer after a frame.
abbrev pub wire_size : ConnConfig → Frame → ℕ
wire_size c f = header_len_of c.version + length f.payload

module _ (c : ConnConfig) (f : Frame) (valid : IsValidConfig c) (fits : IsSendable c f) where
  build_header-eq :
      build_header c f.stream_id f.seq f.flags (length f.payload)
      ≡ ok (header_array c f.stream_id f.seq f.flags (length f.payload), header_len_of c.version)
  unfolding build_header
  build_header-eq = rw (
    ltb-false max_u32 (length f.payload) (omega arith),
    ltb-false c.max_frame (length f.payload) (omega arith),
    conn_header_len-eq c valid,
  )

  pub write_frame_no_flush-eq :
      (p : Port)
      → p.script ≡ []
      → write_frame_no_flush c f p ≡ (
        ok tt,
        record p {
          written = p.written ++ frame_bytes c f;
          counters = count_written f.stream_id (wire_size c f) p.counters;
        },
      )
  unfolding write_frame_no_flush
  write_frame_no_flush-eq p e =
      >>=-ok (lift _) _ {p = p} (ap (λ r. (r, p)) build_header-eq)
      ∙ >>=-ok (write_full head) _ (write_full_all head p e)
      ∙ >>=-ok (write_full f.payload) _ (write_full_all f.payload p1 e)
      ∙ ap done (append_assoc p.written head f.payload)
    where
      head : Bytes
      head =
          take (header_len_of c.version)
            (header_array c f.stream_id f.seq f.flags (length f.payload))

      p1 : Port
      p1 = record p { written = p.written ++ head }

      done : Bytes → Result (Unit {0}) × Port
      done w = (
        ok tt,
        record p { written = w; counters = count_written f.stream_id (wire_size c f) p.counters },
      )

  read_payload-eq :
      (h : Header) (rest : Bytes) (q : Port)
      → h.payload_len ≡ length f.payload
      → q.input ≡ f.payload ++ rest
      → read_payload c (header_len_of c.version) h q ≡ (
        ok (record { stream_id = h.stream_id; seq = h.seq; flags = h.flags; payload = f.payload }),
        record q { input = rest; counters = count_read h.stream_id (wire_size c f) q.counters },
      )
  unfolding read_payload
  read_payload-eq h rest q e i =
      >>=-ok (lift within) _ {p = q} {p' = q} {a = tt} (ap (λ r. (r, q)) small)
      ∙ >>=-ok (read_full h.payload_len) _
          (ap (λ n. read_full n q) e ∙ read_full-append f.payload rest q i)
    where
      within : Result (Unit {0})
      within = if ltb c.max_frame h.payload_len then err (frame_too_large h.payload_len) else ok tt

      small : within ≡ ok tt
      small = rw (e, ltb-false c.max_frame (length f.payload) (omega arith)) refl

  -- The reader returns the frame, and what follows it is still to be read.
  pub read_frame_from-eq :
      (rest : Bytes) (q : Port)
      → q.input ≡ frame_bytes c f ++ rest
      → read_frame_from c q ≡ (
        ok (received c f),
        record q { input = rest; counters = count_read f.stream_id (wire_size c f) q.counters },
      )
  unfolding read_frame_from
  read_frame_from-eq rest q i =
      >>=-ok (lift _) _ {p = q} (ap (λ r. (r, q)) (conn_header_len-eq c valid))
      ∙ >>=-ok (read_full _) _ (
          ap (λ n. read_full n q)
            (sym (length-header_array c f.stream_id f.seq f.flags (length f.payload)))
          ∙ read_full-append head (f.payload ++ rest) q (i ∙ append_assoc head f.payload rest))
      ∙ >>=-ok (lift _) _ {p = q1} (
          ap (λ r. (r, q1))
            (parse_header-header_array c f.stream_id f.seq f.flags (length f.payload) valid
              fits.flags_known fits.stream_id_u32 (omega arith) fits.seq_u64))
      ∙ read_payload-eq _ rest q1 refl refl
    where
      head : Bytes
      head =
          take (header_len_of c.version)
            (header_array c f.stream_id f.seq f.flags (length f.payload))

      q1 : Port
      q1 = record q { input = f.payload ++ rest }

-- The writer and the reader on a sequence of frames.
pub write_frames : ConnConfig → List Frame → Io (Unit {0})
write_frames c [] = return tt
write_frames c (f ∷ fs) = do write_frame_no_flush c f; write_frames c fs

pub read_frames : ConnConfig → ℕ → Io (List Frame)
read_frames c zero = return []
read_frames c (suc n) = do f ← read_frame_from c; fs ← read_frames c n; return (f ∷ fs)

abbrev frames_bytes : ConnConfig → List Frame → Bytes
frames_bytes c [] = []
frames_bytes c (f ∷ fs) = frame_bytes c f ++ frames_bytes c fs

module _ (c : ConnConfig) (valid : IsValidConfig c) where
  write_frames-bytes :
      (fs : List Frame) (p : Port)
      → All (IsSendable c) fs
      → p.script ≡ []
      → ((write_frames c fs p).0 ≡ ok tt)
        × ((write_frames c fs p).1.written ≡ p.written ++ frames_bytes c fs)
  unfolding write_frames
  write_frames-bytes [] p h e = (refl, sym (append-nil p.written))
  write_frames-bytes (f ∷ fs) p (h, hs) e =
      rw (write_frame_no_flush-eq c f valid h p e, ◌>>=◌)
        (
          (write_frames-bytes fs p1 hs e).0,
          (write_frames-bytes fs p1 hs e).1
              ∙ append_assoc p.written (frame_bytes c f) (frames_bytes c fs),
        )
    where
      p1 : Port
      p1 = record p {
        written = p.written ++ frame_bytes c f;
        counters = count_written f.stream_id (wire_size c f) p.counters;
      }

  read_frames-bytes :
      (fs : List Frame) (q : Port) (rest : Bytes)
      → All (IsSendable c) fs
      → q.input ≡ frames_bytes c fs ++ rest
      → ((read_frames c (length fs) q).0 ≡ ok (map (received c) fs))
        × ((read_frames c (length fs) q).1.input ≡ rest)
  unfolding read_frames
  read_frames-bytes [] q rest h e = (refl, e)
  read_frames-bytes (f ∷ fs) q rest (h, hs) e =
      go (read_frames c (length fs) q1) refl (read_frames-bytes fs q1 rest hs refl)
    where
      q1 : Port
      q1 = record q {
        input = frames_bytes c fs ++ rest;
        counters = count_read f.stream_id (wire_size c f) q.counters;
      }

      first : read_frame_from c q ≡ (ok (received c f), q1)
      first =
          read_frame_from-eq c f valid h (frames_bytes c fs ++ rest) q
            (e ∙ append_assoc (frame_bytes c f) (frames_bytes c fs) rest)

      go :
          (out : Result (List Frame) × Port)
          → read_frames c (length fs) q1 ≡ out
          → (out.0 ≡ ok (map (received c) fs)) × (out.1.input ≡ rest)
          → ((read_frames c (suc (length fs)) q).0 ≡ ok (map (received c) (f ∷ fs)))
            × ((read_frames c (suc (length fs)) q).1.input ≡ rest)
      go (ok gs, q2) t (u, v) = rw (first, t) (cc, v)
      go (err x, q2) t (u, v) = absurd (cc)

-- Whatever frames a peer writes, in either version, the other side reads the same frames in the
-- same order and leaves what follows them.
pub read_frames-write_frames :
    (c : ConnConfig) (fs : List Frame) (p q : Port) (rest : Bytes)
    → IsValidConfig c
    → All (IsSendable c) fs
    → p.script ≡ []
    → p.written ≡ []
    → q.input ≡ (write_frames c fs p).1.written ++ rest
    → ((read_frames c (length fs) q).0 ≡ ok (map (received c) fs))
      × ((read_frames c (length fs) q).1.input ≡ rest)
read_frames-write_frames c fs p q rest valid hs e w i = read_frames-bytes c valid fs q rest hs (
    i
    ∙ ap (λ b. b ++ rest)
        ((write_frames-bytes c valid fs p hs e).1 ∙ ap (λ b. b ++ frames_bytes c fs) w))
