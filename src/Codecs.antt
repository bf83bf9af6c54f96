-- ===== src/Codecs.antt =====
-- codec_registry.go: the registry of codecs by ID. The map is an association list, which
-- RegisterCodec only extends.
use adaptivemsg_go.Errors.{Error, invalid_message}
use adaptivemsg_go.Prelude.{
  List, Option, String, [], if◌then◌else◌, none, some, str_eq, ℕ, ◌==◌, ◌∷◌,
}

-- What the registry and the handshake use of a CodecImpl.
pub record Codec : Type 0 where
  pub id : ℕ
  pub name : String

pub record CodecRegistry : Type 0 where
  pub codecs : List (ℕ × Codec)

abbrev pub lookup_codec : ℕ → List (ℕ × Codec) → Option Codec
lookup_codec id [] = none
lookup_codec id ((j, c) ∷ m) = if j == id then some c else lookup_codec id m

unfoldable pub codec_by_id : CodecRegistry → ℕ → Option Codec
codec_by_id reg id = lookup_codec id reg.codecs

-- The nil test of the interface value is the option.
pub register_codec : CodecRegistry → Option Codec → Option Error × CodecRegistry
unfolding codec_by_id
register_codec reg none = (some (invalid_message "codec must be non-nil"), reg)
register_codec reg (some codec) =
    if codec.id == 0
    then (some (invalid_message "codec ID must be non-zero"), reg)
    else if str_eq codec.name ""
    then (some (invalid_message "codec name must be non-empty"), reg)
    else elim (codec_by_id reg codec.id) [
      | some other ↦ (some (invalid_message "codec already registered"), reg)
      | none ↦ (none, record reg { codecs = (codec.id, codec) ∷ reg.codecs })
    ]
