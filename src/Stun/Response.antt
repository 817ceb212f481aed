-- ===== src/Stun/Response.antt =====
-- The address that a STUN server reports is the one that is read.
use p2pfileshare.Base.{◌++◌, length}
use p2pfileshare.Base.Bytes.{Bytes, to_be_bytes}
use p2pfileshare.Stun.{magic_cookie}

-- What a server answers.
unfoldable pub response : Bytes → Bytes → Bytes
response txn_id attrs =
    to_be_bytes 2 0x0101
    ++ (to_be_bytes 2 (length attrs) ++ (to_be_bytes 4 magic_cookie ++ (txn_id ++ attrs)))
