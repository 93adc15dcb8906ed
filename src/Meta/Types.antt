-- ===== src/Meta/Types.antt =====
-- crates/core/src/meta.rs: the types. A text is its bytes, an array of 20 bytes a list of that length.
use torrent_rust_cli.Common.{ℕ, Bytes, List, Option}
use torrent_rust_cli.Bencode.Value.{BencodeError}

pub data MetaError : Type 0 where
  bencode_error : BencodeError → MetaError
  missing_field invalid_type : Bytes → MetaError
  missing_info_slice : MetaError
  invalid_pieces_length : ℕ → MetaError

pub record TorrentFile : Type 0 where
  pub length : ℕ
  pub path : List Bytes

pub data FileMode : Type 0 where
  single : ℕ → FileMode
  multi : List TorrentFile → FileMode

pub record InfoDict : Type 0 where
  pub name : Bytes
  pub piece_length : ℕ
  pub pieces : List Bytes
  pub mode : FileMode

pub record TorrentMeta : Type 0 where
  pub announce : Bytes
  pub announce_list : Option (List (List Bytes))
  pub info : InfoDict
  pub info_hash : Bytes
