-- ===== src/Store/Record/Tombstone.antt =====
-- The tombstone that zss_delete of src/zc_source_store.h writes is read back as one.
use zealos_aarch64_bringup.Base.{
  ℕ, ◌+◌, ◌^◌, ◌≤◌, ◌<◌, ◌≡◌, true, false, some, List, arith, length, inl, ◌∙◌,
}
use zealos_aarch64_bringup.Device.{Sector}
use zealos_aarch64_bringup.Store.Bytes.{
  zero_sector, put_bytes, read_bytes, eq_bytes, u32_at, w32, is_empty, put_bytes_outside,
  read_bytes-put_bytes, u32_at-w32, w32_outside, u32_at-put_bytes, u32_at-w32_ne, eq_bytes_congr,
  is_empty-false,
}
use zealos_aarch64_bringup.Store.Name.{name_ok}
use zealos_aarch64_bringup.Store.Name.Laws.{name_ok-NoNul, name_ok-length, c_string-NoNul}
use zealos_aarch64_bringup.Store.Record.{
  Decoded, delete_magic, is_malformed, is_delete, decoded, decode_record, delete_header,
}

module _ (name : List ℕ) where
  delete_base : Sector
  delete_base = put_bytes zero_sector 0 delete_magic

  low : (i : ℕ) → i < 20 → delete_header name i ≡ delete_base i
  unfolding delete_header delete_base
  low i lt =
      put_bytes_outside (w32 delete_base 20 (length name)) 32 name i (inl (omega arith))
      ∙ w32_outside delete_base 20 (length name) i (inl (omega arith))

  field : (k : ℕ) → k + 4 ≤ 20 → u32_at (delete_header name) k ≡ u32_at delete_base k
  unfolding delete_header delete_base
  field k h =
      u32_at-put_bytes (w32 delete_base 20 (length name)) 32 k name (omega arith)
      ∙ u32_at-w32_ne delete_base 20 k (length name) (inl (omega arith))

  name_len : length name < 2 ^ 32 → u32_at (delete_header name) 20 ≡ length name
  unfolding delete_header
  name_len h = u32_at-put_bytes _ 32 20 name (omega arith) ∙ u32_at-w32 _ 20 (length name) h

  name_kept : read_bytes (delete_header name) 32 (length name) ≡ name
  unfolding delete_header
  name_kept = read_bytes-put_bytes _ 32 name

  is_delete-delete_header : is_delete (delete_header name) ≡ true
  unfolding is_delete delete_base eq_bytes put_bytes
  is_delete-delete_header = rw (
    eq_bytes_congr _ delete_base 0 delete_magic (λ i lt. low i (omega arith)),
    low 6 (omega arith),
    low 7 (omega arith),
  )

  pub delete_header-not_empty : is_empty (delete_header name) ≡ false
  unfolding delete_base put_bytes
  delete_header-not_empty = is_empty-false _ (λ e. omega (arith, e, low 0 (omega arith)))

-- The record that a tombstone stands for.
abbrev pub tombstone : ℕ → List ℕ → Decoded
tombstone pos name = record {
  entry = record { header_sector = pos; length = 0; checksum = 0; blocks = 0 };
  name = name;
  deleted = true;
}

module _ (name : List ℕ) (pos sectors : ℕ) (named : name_ok name ≡ true) (fits : pos < sectors)
    (bounded : sectors ≤ 65536) where
  decoded-delete_header : decoded (delete_header name) pos ≡ tombstone pos name
  unfolding decoded delete_base u32_at put_bytes
  decoded-delete_header =
      let bounds = name_ok-length name named in
      rw
        (
          field name 8 (omega arith),
          field name 12 (omega arith),
          field name 16 (omega arith),
          name_len name (omega arith),
          is_delete-delete_header name,
        )
        (rw (name_kept name, c_string-NoNul name (name_ok-NoNul name named)))

  is_malformed-delete_header : is_malformed (delete_header name) pos sectors ≡ false
  unfolding is_malformed delete_base u32_at put_bytes
  is_malformed-delete_header =
      let bounds = name_ok-length name named in
      rw
        (
          field name 8 (omega arith),
          field name 12 (omega arith),
          field name 16 (omega arith),
          name_len name (omega arith),
          is_delete-delete_header name,
        )
        (ground arith)

  -- A tombstone that zss_delete writes for a valid name, at a position in a bank of at most 65536
  -- sectors, is accepted as a tombstone of that name.
  pub decode_record-delete_header :
      decode_record (delete_header name) pos sectors ≡ some (tombstone pos name)
  unfolding decode_record
  decode_record-delete_header = rw (is_malformed-delete_header, decoded-delete_header, named)
