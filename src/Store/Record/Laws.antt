-- ===== src/Store/Record/Laws.antt =====
-- What a header says is what was put into it, and every record that is accepted fits the bank.
use zealos_aarch64_bringup.Base.{
  ℕ, ◌+◌, ◌^◌, ◌≤◌, ◌<◌, ◌≡◌, refl, Bool, true, false, some, List, arith, length, inl, ◌∙◌,
}
use zealos_aarch64_bringup.Device.{Sector}
use zealos_aarch64_bringup.Store.Bytes.{
  zero_sector, put_bytes, read_bytes, eq_bytes, u32_at, w32, is_empty, put_bytes_outside,
  read_bytes-put_bytes, u32_at-w32, w32_outside, u32_at-put_bytes, u32_at-w32_ne, eq_bytes_congr,
  is_empty-false,
}
use zealos_aarch64_bringup.Store.Name.{name_ok}
use zealos_aarch64_bringup.Store.Name.Laws.{name_ok-NoNul, name_ok-length, c_string-NoNul}
use zealos_aarch64_bringup.Store.Record.{
  max_file, Decoded, file_magic, delete_magic, u32, blocks_of, is_malformed, decode_record, decoded,
  is_delete, is_file, is_misshapen, file_header,
}

-- The shape test bounds the blocks, whatever the fields hold.
is_misshapen-bounds :
    (deleted : Bool) (length checksum blocks : ℕ)
    → is_misshapen deleted length checksum blocks ≡ false
    → (length ≤ max_file) × (blocks ≡ blocks_of length)
is_misshapen-bounds deleted length checksum blocks h = ground arith

module _ (sector : Sector) (pos sectors : ℕ) where
  is_malformed-shape :
      is_malformed sector pos sectors ≡ false
      → (u32 (pos + 1 + u32_at sector 16) ≤ sectors)
        × (is_misshapen (is_delete sector) (u32_at sector 8) (u32_at sector 12) (u32_at sector 16)
            ≡ false)
  unfolding is_malformed
  is_malformed-shape h = ground arith

  pub decode_record-some :
      (d : Decoded)
      → decode_record sector pos sectors ≡ some d
      → (is_malformed sector pos sectors ≡ false)
        × (name_ok d.name ≡ true)
        × (d ≡ decoded sector pos)
  unfolding decode_record
  decode_record-some d h = ground arith

  -- A record that is accepted at a position in a bank of at most 65536 sectors lies inside the bank
  -- without wrapping around, and its length is at most ZSS_MAX_FILE and fills its blocks.
  pub decode_record-bounds :
      (d : Decoded)
      → decode_record sector pos sectors ≡ some d
      → pos < sectors
      → sectors ≤ 65536
      → (pos + 1 + d.entry.blocks ≤ sectors)
        × (d.entry.header_sector ≡ pos)
        × (d.entry.length ≤ max_file)
        × (d.entry.blocks ≡ blocks_of d.entry.length)
  unfolding decoded
  decode_record-bounds d h lt le =
      let (shaped, named, e) = decode_record-some d h in
      let (fits, shape) = is_malformed-shape shaped in
      let (small, counted) =
        is_misshapen-bounds (is_delete sector) (u32_at sector 8) (u32_at sector 12)
          (u32_at sector 16) shape in
      rw e (omega (arith, counted, small, fits), refl, small, counted)

module _ (name : List ℕ) (len checksum blocks : ℕ) where
  -- The header field by field.
  file_base : Sector
  file_base = put_bytes zero_sector 0 file_magic

  with_length : Sector
  with_length = w32 file_base 8 (u32 len)

  with_checksum : Sector
  with_checksum = w32 with_length 12 checksum

  with_blocks : Sector
  with_blocks = w32 with_checksum 16 blocks

  with_name_len : Sector
  with_name_len = w32 with_blocks 20 (length name)

  file_header-low : (i : ℕ) → i < 8 → file_header name len checksum blocks i ≡ file_base i
  unfolding file_header file_base with_length with_checksum with_blocks with_name_len
  file_header-low i lt =
      put_bytes_outside with_name_len 32 name i (inl (omega arith))
      ∙ w32_outside with_blocks 20 (length name) i (inl (omega arith))
      ∙ w32_outside with_checksum 16 blocks i (inl (omega arith))
      ∙ w32_outside with_length 12 checksum i (inl (omega arith))
      ∙ w32_outside file_base 8 (u32 len) i (inl (omega arith))

  pub file_header-length : len < 2 ^ 32 → u32_at (file_header name len checksum blocks) 8 ≡ len
  unfolding file_header
  file_header-length h =
      u32_at-put_bytes _ 32 8 name (omega arith)
      ∙ u32_at-w32_ne _ 20 8 _ (inl (omega arith))
      ∙ u32_at-w32_ne _ 16 8 _ (inl (omega arith))
      ∙ u32_at-w32_ne _ 12 8 _ (inl (omega arith))
      ∙ u32_at-w32 _ 8 _ (omega arith)
      ∙ omega arith

  pub file_header-checksum :
      checksum < 2 ^ 32 → u32_at (file_header name len checksum blocks) 12 ≡ checksum
  unfolding file_header
  file_header-checksum h =
      u32_at-put_bytes _ 32 12 name (omega arith)
      ∙ u32_at-w32_ne _ 20 12 _ (inl (omega arith))
      ∙ u32_at-w32_ne _ 16 12 _ (inl (omega arith))
      ∙ u32_at-w32 _ 12 _ h

  pub file_header-blocks :
      blocks < 2 ^ 32 → u32_at (file_header name len checksum blocks) 16 ≡ blocks
  unfolding file_header
  file_header-blocks h =
      u32_at-put_bytes _ 32 16 name (omega arith)
      ∙ u32_at-w32_ne _ 20 16 _ (inl (omega arith))
      ∙ u32_at-w32 _ 16 _ h

  pub file_header-name_len :
      length name < 2 ^ 32 → u32_at (file_header name len checksum blocks) 20 ≡ length name
  unfolding file_header
  file_header-name_len h = u32_at-put_bytes _ 32 20 name (omega arith) ∙ u32_at-w32 _ 20 _ h

  pub file_header-magic : eq_bytes (file_header name len checksum blocks) 0 file_magic ≡ true
  unfolding file_base eq_bytes put_bytes
  file_header-magic =
      eq_bytes_congr _ file_base 0 file_magic (λ i lt. file_header-low i (omega arith))

  pub file_header-not_delete :
      eq_bytes (file_header name len checksum blocks) 0 delete_magic ≡ false
  unfolding file_base eq_bytes put_bytes
  file_header-not_delete =
      eq_bytes_congr _ file_base 0 delete_magic (λ i lt. file_header-low i (omega arith))

  pub file_header-seven : file_header name len checksum blocks 7 ≡ 0
  unfolding file_base put_bytes
  file_header-seven = file_header-low 7 (omega arith)

  pub file_header-not_empty : is_empty (file_header name len checksum blocks) ≡ false
  unfolding file_base put_bytes
  file_header-not_empty = is_empty-false _ (λ e. omega (arith, e, file_header-low 0 (omega arith)))

  file_header-name : read_bytes (file_header name len checksum blocks) 32 (length name) ≡ name
  unfolding file_header
  file_header-name = read_bytes-put_bytes _ 32 name

  is_file-file_header : is_file (file_header name len checksum blocks) ≡ true
  unfolding is_file
  is_file-file_header = rw (file_header-magic, file_header-seven)

  is_delete-file_header : is_delete (file_header name len checksum blocks) ≡ false
  unfolding is_delete
  is_delete-file_header = rw file_header-not_delete

-- The record that a header of zss_put stands for.
abbrev pub file_record : ℕ → List ℕ → ℕ → ℕ → Decoded
file_record pos name len checksum = record {
  entry = record { header_sector = pos; length = len; checksum = checksum; blocks = blocks_of len };
  name = name;
  deleted = false;
}

module _ (name : List ℕ) (len checksum pos sectors : ℕ) (named : name_ok name ≡ true)
    (positive : 0 < len) (small : len ≤ max_file) (summed : checksum < 2 ^ 32)
    (fits : pos + 1 + blocks_of len ≤ sectors) (bounded : sectors ≤ 65536) where
  decoded-file_header :
      decoded (file_header name len checksum (blocks_of len)) pos
      ≡ file_record pos name len checksum
  unfolding decoded
  decoded-file_header =
      let bounds = name_ok-length name named in
      rw (
        file_header-length name len checksum (blocks_of len) (omega arith),
        file_header-checksum name len checksum (blocks_of len) summed,
        file_header-blocks name len checksum (blocks_of len) (omega arith),
        file_header-name_len name len checksum (blocks_of len) (omega arith),
        file_header-name name len checksum (blocks_of len),
        is_delete-file_header name len checksum (blocks_of len),
        c_string-NoNul name (name_ok-NoNul name named),
      )

  is_malformed-file_header :
      is_malformed (file_header name len checksum (blocks_of len)) pos sectors ≡ false
  unfolding is_malformed
  is_malformed-file_header =
      let bounds = name_ok-length name named in
      rw
        (
          file_header-length name len checksum (blocks_of len) (omega arith),
          file_header-checksum name len checksum (blocks_of len) summed,
          file_header-blocks name len checksum (blocks_of len) (omega arith),
          file_header-name_len name len checksum (blocks_of len) (omega arith),
          is_delete-file_header name len checksum (blocks_of len),
          is_file-file_header name len checksum (blocks_of len),
        )
        (ground arith)

  -- A header that zss_put writes, for a valid name, a length and a checksum in their ranges and a
  -- record that fits a bank of at most 65536 sectors, is accepted and says what was put into it.
  pub decode_record-file_header :
      decode_record (file_header name len checksum (blocks_of len)) pos sectors
      ≡ some (file_record pos name len checksum)
  unfolding decode_record
  decode_record-file_header = rw (is_malformed-file_header, decoded-file_header, named)
