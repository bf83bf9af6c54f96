-- ===== src/Frame/Reading.antt =====
-- What `read_frame_from` accepts, on any input.
use adaptivemsg_go.Bytes.{Bytes, IsByte, get_u32}
use adaptivemsg_go.Errors.{Result, err, frame_too_large, ok}
use adaptivemsg_go.Frame.{
  ConnConfig, Frame, Header, conn_header_len, parse_header, read_frame_from, read_payload,
}
use adaptivemsg_go.Frame.HeaderBytes.{
  IsValidConfig, conn_header_len-eq, flags_unknown_lem, header_len_of,
}
use adaptivemsg_go.Port.{>>=-eq-ok, Port, lift, read_full}
use adaptivemsg_go.Port.Transfer.{read_full_ok}
use adaptivemsg_go.Prelude.{
  All, All-left, [], ap, arith, get_or, if◌then◌else◌, length, ltb, slice, subst, suc, zero, ℕ,
  ◌++◌, ◌<◌, ◌∙◌, ◌∷◌, ◌≡◌, ◌≤◌,
}

get_or-IsByte : (bs : Bytes) (i : ℕ) → All IsByte bs → get_or bs i 0 < 256
get_or-IsByte [] i h = omega arith
get_or-IsByte (b ∷ bs) zero h = h.0
get_or-IsByte (b ∷ bs) (suc i) h = get_or-IsByte bs i h.1

-- An accepted header has the connection's version and no flag but FIN.
parse_header_ok :
    (c : ConnConfig) (bs : Bytes) {h : Header}
    → All IsByte bs
    → parse_header c bs ≡ ok h
    → (get_or bs 0 0 ≡ c.version) × (h.flags < 2) × (h.payload_len ≡ get_u32 (slice bs 6 10))
unfolding parse_header
parse_header_ok c bs {h} b e =
    ground (arith, get_or-IsByte bs 1 b, flags_unknown_lem (get_or bs 1 0))

-- What is known of a frame that was read from `p`, leaving `q`.
pub record ReadFrame (c : ConnConfig) (p : Port) (f : Frame) (q : Port) : Type 0 where
  pub flags_known : f.flags < 2
  pub within_limit : length f.payload ≤ c.max_frame
  pub header : Bytes
  pub header_length : length header ≡ header_len_of c.version
  pub version_matches : get_or header 0 0 ≡ c.version
  pub consumed : p.input ≡ header ++ (f.payload ++ q.input)

read_payload_ok :
    (c : ConnConfig) (n : ℕ) (h : Header) (p : Port) {f : Frame} {q : Port}
    → read_payload c n h p ≡ (ok f, q)
    → (length f.payload ≤ c.max_frame)
      × (p.input ≡ f.payload ++ q.input)
      × (f.flags ≡ h.flags)
      × (length f.payload ≡ h.payload_len)
unfolding read_payload
read_payload_ok c n h p {f} {q} e =
    let (u, p1, e1, t1) = >>=-eq-ok (lift within) _ e in
    let (payload, p2, e2, t2) = >>=-eq-ok (read_full h.payload_len) _ t1 in
    let sizes = read_full_ok h.payload_len p1 e2 in ground (arith, sizes, e1, t2)
  where
    within : Result (Unit {0})
    within = if ltb c.max_frame h.payload_len then err (frame_too_large h.payload_len) else ok tt

-- The parts of a successful read, put together.
read_parts :
    (c : ConnConfig) (p : Port) (f : Frame) (q : Port) (n : ℕ) (bs : Bytes) (h : Header)
    (p1 p2 p3 : Port)
    → IsValidConfig c
    → All IsByte p.input
    → lift (conn_header_len c) p ≡ (ok n, p1)
    → read_full n p1 ≡ (ok bs, p2)
    → lift (parse_header c bs) p2 ≡ (ok h, p3)
    → read_payload c n h p3 ≡ (ok f, q)
    → ReadFrame c p f q
read_parts c p f q n bs h p1 p2 p3 valid bytes e1 e2 e3 e4 = record {
  flags_known = ground (arith, rest, parsed);
  within_limit = rest.0;
  header = bs;
  header_length = ground (arith, got, len, conn_header_len-eq c valid);
  version_matches = parsed.0;
  consumed =
      ap (λ (r : Port). r.input) start
      ∙ got.1
      ∙ ap (λ t. bs ++ t) (ap (λ (r : Port). r.input) same ∙ rest.1);
}
  where
    start : p ≡ p1
    start = cc

    same : p2 ≡ p3
    same = cc

    len : conn_header_len c ≡ ok n
    len = cc

    got :
        (length bs ≡ n)
        × (p1.input ≡ bs ++ p2.input)
        × (p2.written ≡ p1.written)
        × (p2.counters ≡ p1.counters)
    got = read_full_ok n p1 e2

    head_bytes : All IsByte bs
    head_bytes =
        All-left IsByte bs p2.input
          (subst (All IsByte) (ap (λ (r : Port). r.input) start ∙ got.1) bytes)

    parsed : (get_or bs 0 0 ≡ c.version) × (h.flags < 2) × (h.payload_len ≡ get_u32 (slice bs 6 10))
    parsed = parse_header_ok c bs {h = h} head_bytes (cc)

    rest :
        (length f.payload ≤ c.max_frame)
        × (p3.input ≡ f.payload ++ q.input)
        × (f.flags ≡ h.flags)
        × (length f.payload ≡ h.payload_len)
    rest = read_payload_ok c n h p3 e4

-- A frame that is accepted keeps to the limit and carries no unknown flag, and the reader takes
-- exactly its header and its payload from the transport.
pub read_frame_from-ReadFrame :
    (c : ConnConfig) (p : Port) {f : Frame} {q : Port}
    → IsValidConfig c
    → All IsByte p.input
    → read_frame_from c p ≡ (ok f, q)
    → ReadFrame c p f q
unfolding read_frame_from
read_frame_from-ReadFrame c p {f} {q} valid bytes e =
    let (n, p1, e1, t1) = >>=-eq-ok (lift (conn_header_len c)) _ e in
    let (bs, p2, e2, t2) = >>=-eq-ok (read_full n) _ t1 in
    let (h, p3, e3, t3) = >>=-eq-ok (lift (parse_header c bs)) _ t2 in
    read_parts c p f q n bs h p1 p2 p3 valid bytes e1 e2 e3 t3
