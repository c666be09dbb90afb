-- ===== src/Lib.antt =====
-- The parts of the AArch64 bring-up of ZealOS that decide what is kept on the disk, what is read
-- from it and what is edited: the source store of the kernel with its line editor, and the FAT32
-- reader of the Pi 4; and the code generator of the HolyC compiler.
--
-- src/zc_source_store.h keeps source files in an append-only log: a bank of 65536 sectors with a
-- superblock in sector 0, then records, each a header sector and the data sectors behind it. A file
-- is replaced by a later record of its name and removed by a tombstone; an empty sector ends the
-- log. Two banks (src/disk_layout.h) hold generations of the log, and zss_available selects the
-- newer one. It reads and writes through src/virtio_blk.h.
--
--   Base      comparisons, C arrays as lists, bit operations
--   Device    src/virtio_blk.h: requests of one sector, with the guards of virtio_blk_rw_sectors;
--             `completion` says how the device ends each request, so that every failure, timeout
--             and torn sector is covered
--   Store     src/zc_source_store.h
--     Bytes, Crc, Name, Record   zss_u32, zss_w32, zss_eq, zss_crc, zss_name_ok, zss_decode_record,
--                                and the headers that are written
--     Bank      the `g_zss_` globals, zss_sector_read, zss_sector_write, zss_available;
--               Bank/Superblock says what the bytes of a superblock mean
--     Find      zss_find
--     Log       the log as a list of records, and zss_find over it
--     Write     zss_put and zss_delete
--     Read      zss_read and zss_verify
--     Stream    zss_stream_begin, zss_stream_write, zss_stream_finish, and the calls of zrecv_serial in
--               src/kernel_stub.c over the chunks that come in
--     Catalog   zss_entry_at, with `g_zss_catalog` beside the store
--     Session   calls one after the other
--
-- src/zc_source_editor.h edits one file of the store. `g_zedit` is a record, its text a buffer with
-- a length; a command line is a list of characters, and what a command prints is a value.
--
--   Editor    src/zc_source_editor.h
--     Text      zedit_lines, zedit_bounds, zedit_splice and zedit_delete_line; Text/Lines is the text
--               as a list of lines
--     Input     zedit_number
--     View      zedit_page_rows, zedit_reveal_cursor, zedit_print, the clamps of zedit_render
--     File      zedit_save and zedit_start, over Store
--     Command   zedit_handle_command and zedit_handle; Command/Lines has the commands that change the
--               text, Command/Replies what is printed
--     Edits, Effects, Meaning   the commands as operations on the list of lines
--     Valid, Closing, Reopen    every command, one after the other, and a file that is opened again
--
-- zedit_bounds runs on fuel, one round more than the text has bytes; each round moves on by a byte
-- at least. The other loops recur on the bytes or numbers that are left.
--
-- src/pi4_fat32.h reads a small file from a FAT32 volume through a callback, which may fail at any
-- request; it allocates nothing and bounds every loop.
--
--   Fat       src/pi4_fat32.h
--     Volume    pi4_fat32_le16 to pi4_fat32_cluster_lba; Volume/Layout says where things lie
--     Directory pi4_fat32_directory_entry, pi4_fat32_name_equal and pi4_fat32_find_file
--     File      pi4_fat32_read_file; the callback is a function of the number of the request and of
--               the sector
--
-- src/hc_ir.h turns the bytecode of the HolyC front end, a stack language, into words of AArch64
-- with the functions of src/a64_emit.h. The words from `out` to `p` are a list, labels a function,
-- and every error return a value of `Error`.
--
--   Jit       src/hc_ir.h and src/a64_emit.h
--     Encode    the a64_ functions; Encode/Decoding and Encode/Constants read their words back
--     Ops, Compile   the enumeration of the bytecode; EMIT, EMIT_BR and the hc_emit_ helpers
--     Stack, Memory, Calls   the cases of the switch of hc_ir_compile
--     Step      the switch, its loop, what comes behind the loop, and hc_ir_compile
--     Pack      hc_pack_imm64, hc_pack_call0 to hc_pack_call7 and hc_pack_u8op
--     Bounds    every case within the buffer; Bounds/Switch, Bounds/Reached and Bounds/Targets follow the
--               branches of the bytecode to their labels
--     Words, Machine   the instructions as the Arm manual describes them, for code without branches:
--               this is no translation of the source
--     Ir        what the bytecode means, without branches, calls and memory, and the compiled code
--
-- The loop of hc_ir_compile runs on fuel, one round more than there are bytes; each round takes a
-- byte at least. Where the linker puts `g_hc_fp`, `g_hc_alloc` and `g_hc_mem` is the parameter
-- `Places`.
--
-- Plans made before a register or a pixel is touched.
--
--   Pi        Pcie: src/pi4_pcie_cfg.h, of `struct zeal_handoff` the fields that it reads;
--             Desktop: the plan of src/pi4_desktop_fb.h and the place of each write;
--             Dma: src/pi4_dma.h, the reservation of memory for USB transfers; Dma/Partition is the
--             memory map as the number of entries over a byte
--
-- src/pi4_usb_keyboard.h turns the boot reports of a keyboard into presses and releases.
--
--   Usb       Keyboard: pi4_usb_keyboard_has and pi4_usb_keyboard_decode, with the calls of `emit` as a
--             list of events
--
-- The sector loops of zss_put, zss_read and zss_verify recur on the number of blocks. The loops of
-- zss_find and zss_entry_at run on fuel, one round more than the bank has sectors; each round moves
-- on by a sector at least, so the fuel does not run out. The loop over clusters of
-- pi4_fat32_read_file runs on its own limit, PI4_FAT32_FILE_CLUSTER_LIMIT.
--
-- Not modelled: the rings and the registers of the block device (a request that timed out is taken
-- to be over), zss_compact, the scan of the root directory of a FAT32 volume, the drawing of the
-- editor and the bytes that a failing read leaves in its buffer; what branches, calls, memory and
-- floating point of compiled code do when it runs, and the front end src/hc_front.h; and the other
-- parts of the tree.
pub mod Base
pub mod Device
pub mod Editor
pub mod Usb
pub mod Pi
pub mod Fat
pub mod Jit
pub mod Store
