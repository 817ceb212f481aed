-- ===== src/Session/Codec.antt =====
-- The MessagePack form of the control messages (`rmp_serde`), which the sessions take as a
-- parameter, with the text that `{:?}` gives of a message.
use p2pfileshare.Base.{String, ◌≡◌, Res, ok}
use p2pfileshare.Base.Bytes.{Bytes}
use p2pfileshare.Manifest.{ControlMessage}

pub record Codec : Type 0 where
  pub to_vec : ControlMessage → Res String Bytes
  pub from_slice : Bytes → Res String ControlMessage
  pub debug : ControlMessage → String

-- What is encoded can be decoded.
pub record IsCodec (c : Codec) : Type 0 where
  pub from_slice-to_vec :
      (m : ControlMessage) (p : Bytes) → c.to_vec m ≡ ok p → c.from_slice p ≡ ok m
