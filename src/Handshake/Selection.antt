-- ===== src/Handshake/Selection.antt =====
-- The choice of the codec and of the frame limit.
use adaptivemsg_go.Handshake.{contains_codec, find_supported, negotiate_max_frame, select_codec}
use adaptivemsg_go.Prelude.{
  All, List, Option-cases, [], ap, arith, false, inl, inr, min, none, refl, some, true, ℕ, ◌++◌,
  ◌∷◌, ◌≡◌,
}

-- The negotiated limit is the smaller of the two.
pub negotiate_max_frame-eq-min : (a b : ℕ) → negotiate_max_frame a b ≡ min a b
unfolding negotiate_max_frame
negotiate_max_frame-eq-min a b = ground arith

find_supported-some :
    (raw : ℕ) (supported : List ℕ) {s : ℕ}
    → find_supported raw supported ≡ some s
    → (s ≡ raw) × (contains_codec supported raw ≡ true)
unfolding find_supported contains_codec
find_supported-some raw [] e = absurd (cc)
find_supported-some raw (sup ∷ supported) {s} e =
    ground (arith, find_supported-some raw supported {s = s})

find_supported-none :
    (raw : ℕ) (supported : List ℕ)
    → find_supported raw supported ≡ none
    → contains_codec supported raw ≡ false
unfolding find_supported contains_codec
find_supported-none raw [] e = refl
find_supported-none raw (sup ∷ supported) e = ground (arith, find_supported-none raw supported)

-- The first codec of the client that the server supports.
pub record FirstCommon (client supported : List ℕ) (s : ℕ) : Type 0 where
  pub before : List ℕ
  pub after : List ℕ
  pub offered : client ≡ before ++ (s ∷ after)
  pub supported_too : contains_codec supported s ≡ true
  pub none_before : All (λ x. contains_codec supported x ≡ false) before

-- A selected codec is the client's first preference among those that the server supports.
pub select_codec-FirstCommon :
    (client supported : List ℕ) {s : ℕ}
    → select_codec client supported ≡ some s
    → FirstCommon client supported s
unfolding select_codec
select_codec-FirstCommon [] supported e = absurd (cc)
select_codec-FirstCommon (raw ∷ client) supported {s} e =
    elim (Option-cases (find_supported raw supported)) [
      | inr (t, h) ↦ here t h (find_supported-some raw supported h)
      | inl h ↦
          there h (select_codec-FirstCommon client supported {s = s} (rw (h, select_codec) at e))
    ]
  where
    here :
        (t : ℕ)
        → find_supported raw supported ≡ some t
        → (t ≡ raw) × (contains_codec supported raw ≡ true)
        → FirstCommon (raw ∷ client) supported s
    here t h (u, c) = record {
      before = [];
      after = client;
      offered = ground arith;
      supported_too = ground arith;
      none_before = tt;
    }

    there :
        find_supported raw supported ≡ none
        → FirstCommon client supported s
        → FirstCommon (raw ∷ client) supported s
    there h f = record {
      before = raw ∷ f.before;
      after = f.after;
      offered = ap (λ t. raw ∷ t) f.offered;
      supported_too = f.supported_too;
      none_before = (find_supported-none raw supported h, f.none_before);
    }

-- Where no codec is selected, the server supports none that the client offers.
pub select_codec-none :
    (client supported : List ℕ)
    → select_codec client supported ≡ none
    → All (λ x. contains_codec supported x ≡ false) client
unfolding select_codec
select_codec-none [] supported e = tt
select_codec-none (raw ∷ client) supported e = elim (Option-cases (find_supported raw supported)) [
  | inr (t, h) ↦ absurd (cc (rw (h, select_codec) at e))
  | inl h ↦ (
    find_supported-none raw supported h,
    select_codec-none client supported (rw (h, select_codec) at e),
  )
]

pub contains_codec_append :
    (before after : List ℕ) (s : ℕ) → contains_codec (before ++ (s ∷ after)) s ≡ true
unfolding contains_codec
contains_codec_append [] after s = ground arith
contains_codec_append (b ∷ before) after s = ground (arith, contains_codec_append before after s)
