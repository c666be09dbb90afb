-- ===== src/Store/Record.antt =====
-- Records of the log: `struct zss_entry`, zss_decode_record, and the headers that zss_put,
-- zss_delete and zss_stream_finish build, in src/zc_source_store.h.
pub mod Laws
pub mod Tombstone
use zealos_aarch64_bringup.Base.{
  ℕ, ◌+◌, ◌*◌, ◌/◌, ◌%◌, ◌^◌, Bool, not, ◌&&◌, ◌||◌, Option, none, some, List, [], ◌∷◌, ltb, ◌==◌,
  if◌then◌else◌, length,
}
use zealos_aarch64_bringup.Device.{Sector}
use zealos_aarch64_bringup.Store.Bytes.{zero_sector, put_bytes, read_bytes, eq_bytes, u32_at, w32}
use zealos_aarch64_bringup.Store.Name.{max_name, c_string, name_ok}

-- ZSS_MAX_FILE
abbrev pub max_file : ℕ
max_file = 4 * 1024 * 1024

pub record Entry : Type 0 where
  pub header_sector : ℕ
  pub length : ℕ
  pub checksum : ℕ
  pub blocks : ℕ

abbrev pub file_magic : List ℕ
file_magic = b'Z' ∷ b'C' ∷ b'F' ∷ b'I' ∷ b'L' ∷ b'E' ∷ b'1' ∷ []

abbrev pub delete_magic : List ℕ
delete_magic = b'Z' ∷ b'C' ∷ b'D' ∷ b'E' ∷ b'L' ∷ b'1' ∷ []

-- uint32_t arithmetic
abbrev pub u32 : ℕ → ℕ
u32 n = n % 2 ^ 32

-- Sectors that a file of `length` bytes takes: `(length + 511u) / 512u`.
abbrev pub blocks_of : ℕ → ℕ
blocks_of length = u32 (length + 511) / 512

-- What a header says: the entry, the name, and whether it is a tombstone.
pub record Decoded : Type 0 where
  pub entry : Entry
  pub name : List ℕ
  pub deleted : Bool

unfoldable pub is_delete : Sector → Bool
is_delete sector = eq_bytes sector 0 delete_magic && sector 6 == 0 && sector 7 == 0

unfoldable pub is_file : Sector → Bool
is_file sector = eq_bytes sector 0 file_magic && sector 7 == 0

-- `is_delete ? (length || checksum || blocks) : (!length || …)`
abbrev pub is_misshapen : Bool → ℕ → ℕ → ℕ → Bool
is_misshapen deleted length checksum blocks =
    if deleted
    then not (length == 0) || not (checksum == 0) || not (blocks == 0)
    else length == 0 || ltb max_file length || not (blocks == blocks_of length)

-- The test of zss_decode_record that fails a header before its name is read.
unfoldable pub is_malformed : Sector → ℕ → ℕ → Bool
is_malformed sector pos sectors =
    let blocks = u32_at sector 16 in
    let name_len = u32_at sector 20 in
    (not (is_file sector) && not (is_delete sector))
    || name_len == 0
    || ltb max_name name_len
    || ltb sectors (u32 (pos + 1 + blocks))
    || is_misshapen (is_delete sector) (u32_at sector 8) (u32_at sector 12) blocks

-- The values that zss_decode_record gives out.
unfoldable pub decoded : Sector → ℕ → Decoded
decoded sector pos = record {
  entry = record {
    header_sector = pos;
    length = u32_at sector 8;
    checksum = u32_at sector 12;
    blocks = u32_at sector 16;
  };
  name = c_string (read_bytes sector 32 (u32_at sector 20));
  deleted = is_delete sector;
}

-- zss_decode_record; `none` is its -1.
unfoldable pub decode_record : Sector → ℕ → ℕ → Option Decoded
decode_record sector pos sectors =
    if is_malformed sector pos sectors
    then none
    else if not (name_ok (decoded sector pos).name)
    then none
    else some (decoded sector pos)

-- The header that zss_put writes last.
unfoldable pub file_header : List ℕ → ℕ → ℕ → ℕ → Sector
file_header name len checksum blocks =
    put_bytes
      (w32 (w32 (w32 (w32 (put_bytes zero_sector 0 file_magic) 8 (u32 len)) 12 checksum) 16 blocks)
        20 (length name))
      32 name

-- The tombstone that zss_delete writes.
unfoldable pub delete_header : List ℕ → Sector
delete_header name = put_bytes (w32 (put_bytes zero_sector 0 delete_magic) 20 (length name)) 32 name
