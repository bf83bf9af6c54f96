-- ===== src/Attach/Control.antt =====
-- The payloads of control frames.
use adaptivemsg_go.Attach.{
  build_ack_control_payload, build_close_control_payload, build_ping_control_payload,
  control_type_ack, control_type_close, control_type_ping, parse_control_payload,
}
use adaptivemsg_go.Bytes.{Bytes, IsByte, get_u64, get_u64-put_u64, put_u64}
use adaptivemsg_go.Errors.{ok}
use adaptivemsg_go.Prelude.{
  All, Bool-cases, [], ap, arith, get_or, inl, inr, length, refl, slice, subst, sym, ℕ, ◌%◌, ◌/◌,
  ◌<◌, ◌==◌, ◌^◌, ◌∙◌, ◌∷◌, ◌≡◌,
}

pub data Control : Type 0 where
  ack_control : ℕ → Control
  ping_control : Control
  close_control : Control

-- The builders.
abbrev pub control_payload : Control → Bytes
control_payload (ack_control seq) = build_ack_control_payload seq
control_payload ping_control = build_ping_control_payload
control_payload close_control = build_close_control_payload

abbrev pub control_value : Control → ℕ × ℕ
control_value (ack_control seq) = (control_type_ack, seq)
control_value ping_control = (control_type_ping, 0)
control_value close_control = (control_type_close, 0)

abbrev pub SeqFits : Control → Type 0
SeqFits (ack_control seq) = seq < 2 ^ 64
SeqFits ping_control = Unit {0}
SeqFits close_control = Unit {0}

-- What the builders write is read back.
pub parse_control_payload-build :
    (c : Control) → SeqFits c → parse_control_payload (control_payload c) ≡ ok (control_value c)
unfolding parse_control_payload build_ack_control_payload build_ping_control_payload
    build_close_control_payload
parse_control_payload-build (ack_control seq) h =
    ap (λ (n : ℕ). ok (control_type_ack, n)) (get_u64-put_u64 seq h)
parse_control_payload-build ping_control h = refl
parse_control_payload-build close_control h = refl

put_u64-get_u64 :
    (a b c d e f g h : ℕ)
    → All IsByte (a ∷ b ∷ c ∷ d ∷ e ∷ f ∷ g ∷ h ∷ [])
    → put_u64 (get_u64 (a ∷ b ∷ c ∷ d ∷ e ∷ f ∷ g ∷ h ∷ [])) ≡ a ∷ b ∷ c ∷ d ∷ e ∷ f ∷ g ∷ h ∷ []
put_u64-get_u64 a b c d e f g h bytes =
    (λ i. e0 i ∷ e1 i ∷ e2 i ∷ e3 i ∷ e4 i ∷ e5 i ∷ e6 i ∷ e7 i ∷ [])
  where
    v : ℕ
    v = get_u64 (a ∷ b ∷ c ∷ d ∷ e ∷ f ∷ g ∷ h ∷ [])

    e0 : v / 2 ^ 56 % 256 ≡ a
    e0 = omega (arith, bytes)

    e1 : v / 2 ^ 48 % 256 ≡ b
    e1 = omega (arith, bytes)

    e2 : v / 2 ^ 40 % 256 ≡ c
    e2 = omega (arith, bytes)

    e3 : v / 2 ^ 32 % 256 ≡ d
    e3 = omega (arith, bytes)

    e4 : v / 2 ^ 24 % 256 ≡ e
    e4 = omega (arith, bytes)

    e5 : v / 2 ^ 16 % 256 ≡ f
    e5 = omega (arith, bytes)

    e6 : v / 2 ^ 8 % 256 ≡ g
    e6 = omega (arith, bytes)

    e7 : v % 256 ≡ h
    e7 = omega (arith, bytes)

-- A control frame that was built.
pub record Built (payload : Bytes) (result : ℕ × ℕ) : Type 0 where
  pub control : Control
  pub built : payload ≡ control_payload control
  pub value : result ≡ control_value control

ack-Built :
    (payload : Bytes)
    → All IsByte payload
    → length payload ≡ 9
    → get_or payload 0 0 ≡ 1
    → Built payload (1, get_u64 (slice payload 1 9))
unfolding build_ack_control_payload
ack-Built (t ∷ a ∷ b ∷ c ∷ d ∷ e ∷ f ∷ g ∷ h ∷ []) bytes l k = record {
  control = ack_control (get_u64 (a ∷ b ∷ c ∷ d ∷ e ∷ f ∷ g ∷ h ∷ []));
  built = λ i. k i ∷ sym (put_u64-get_u64 a b c d e f g h bytes.1) i;
  value = refl;
}
ack-Built _ bytes l k = absurd (omega arith)

single-Built :
    (payload : Bytes) (c : Control) (kind : ℕ)
    → control_payload c ≡ kind ∷ []
    → control_value c ≡ (kind, 0)
    → length payload ≡ 1
    → get_or payload 0 0 ≡ kind
    → Built payload (kind, 0)
single-Built [] c kind e v l k = absurd (omega arith)
single-Built (t ∷ []) c kind e v l k = record {
  control = c;
  built = ap (λ (x : ℕ). x ∷ []) k ∙ sym e;
  value = sym v;
}
single-Built (t ∷ u ∷ ts) c kind e v l k = absurd (omega arith)

-- Only what the builders write is accepted, whatever bytes a peer sends.
pub parse_control_payload_ok :
    (payload : Bytes) {result : ℕ × ℕ}
    → All IsByte payload
    → parse_control_payload payload ≡ ok result
    → Built payload result
unfolding parse_control_payload build_ping_control_payload build_close_control_payload
parse_control_payload_ok payload {result} bytes e = elim (Bool-cases (length payload == 0)) [
  | inl empty ↦ absurd (ground (arith, e))
  | inr filled ↦ elim (Bool-cases (get_or payload 0 0 == 1)) [
    | inl is_ack ↦
        subst (Built payload) (ground arith) (ack-Built payload bytes (ground arith) (ground arith))
    | inr not_ack ↦ elim (Bool-cases (get_or payload 0 0 == 2)) [
      | inl is_ping ↦
          subst (Built payload) (ground arith)
            (single-Built payload ping_control 2 refl refl (ground arith) (ground arith))
      | inr not_ping ↦
          subst (Built payload) (ground arith)
            (single-Built payload close_control 3 refl refl (ground arith) (ground arith))
    ]
  ]
]
