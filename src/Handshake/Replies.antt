-- ===== src/Handshake/Replies.antt =====
-- What the client makes of a reply, and which codecs a valid list has.
use adaptivemsg_go.Bytes.{get_u32-put_u32}
use adaptivemsg_go.Codecs.{Codec, CodecRegistry, codec_by_id}
use adaptivemsg_go.Errors.{err, no_common_codec, ok, unsupported_frame_version}
use adaptivemsg_go.Frame.{frame_header_len_for_version}
use adaptivemsg_go.Frame.HeaderBytes.{header_len_of}
use adaptivemsg_go.Handshake.{
  accept_reply, contains_codec, is_supported_protocol_version, new_conn_config, server_reply,
  validate_codec_ids, validate_codec_list,
}
use adaptivemsg_go.Prelude.{
  ==_iff, Bool-cases, List, Option-cases, [], ap, arith, eq_refl, false, inl, inr, length, none,
  refl, some, sym, true, ℕ, ◌<◌, ◌==◌, ◌^◌, ◌∙◌, ◌∷◌, ◌≡◌, ◌≤◌, ◌⊎◌,
}

pub validate_codec_list_short :
    (registry : CodecRegistry) (ids : List ℕ)
    → validate_codec_list registry ids ≡ none
    → (0 < length ids) × (length ids ≤ 16) × (validate_codec_ids registry ids ≡ none)
unfolding validate_codec_list
validate_codec_list_short registry ids h = ground arith

-- A codec of a valid list is registered.
pub validate_codec_ids_registered :
    (registry : CodecRegistry) (ids : List ℕ) (s : ℕ)
    → validate_codec_ids registry ids ≡ none
    → contains_codec ids s ≡ true
    → (c : Codec) × (codec_by_id registry s ≡ some c)
unfolding validate_codec_ids contains_codec
validate_codec_ids_registered registry [] s h m = absurd (cc)
validate_codec_ids_registered registry (id ∷ ids) s h m = elim (Bool-cases (id == s)) [
  | inl e ↦ this ((==_iff id s).0 e) (Option-cases (codec_by_id registry id))
  | inr n ↦ validate_codec_ids_registered registry ids s (ground arith) (ground arith)
]
  where
    this :
        id ≡ s
        → ((codec_by_id registry id ≡ none) ⊎ ((c : Codec) × (codec_by_id registry id ≡ some c)))
        → (c : Codec) × (codec_by_id registry s ≡ some c)
    this e (inl o) = absurd (ground arith)
    this e (inr (c, o)) = (c, ap (codec_by_id registry) (sym e) ∙ o)

pub new_conn_config-eq :
    (registry : CodecRegistry) (version s max_frame : ℕ) (c : Codec)
    → is_supported_protocol_version version ≡ true
    → codec_by_id registry s ≡ some c
    → new_conn_config registry version s max_frame
      ≡ ok (record {
        version = version;
        codec_id = s;
        codec = c;
        max_frame = max_frame;
        header_len = header_len_of version;
      })
unfolding new_conn_config is_supported_protocol_version frame_header_len_for_version header_len_of
new_conn_config-eq registry version s max_frame c hv hc = rw (hc, new_conn_config) (ground arith)

-- The client takes a positive reply for the codec and the limit that it names.
pub accept_reply-ok :
    (registry : CodecRegistry) (offered : List ℕ) (version s max_frame : ℕ)
    → max_frame < 2 ^ 32
    → contains_codec offered s ≡ true
    → accept_reply registry offered version (server_reply 1 version s max_frame)
      ≡ new_conn_config registry version s max_frame
unfolding accept_reply server_reply
accept_reply-ok registry offered version s max_frame h m =
    rw (eq_refl version, m, get_u32-put_u32 max_frame h) refl

-- A refusal for another version, and a refusal for this one.
pub accept_reply_version :
    (registry : CodecRegistry) (offered : List ℕ) (version other : ℕ)
    → (other == version) ≡ false
    → accept_reply registry offered version (server_reply 0 other 0 0)
      ≡ err (unsupported_frame_version other)
unfolding accept_reply server_reply
accept_reply_version registry offered version other h = rw h refl

pub accept_reply_refused :
    (registry : CodecRegistry) (offered : List ℕ) (version : ℕ)
    → accept_reply registry offered version (server_reply 0 version 0 0) ≡ err no_common_codec
unfolding accept_reply server_reply
accept_reply_refused registry offered version = rw (eq_refl version) refl
