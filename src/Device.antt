-- ===== src/Device.antt =====
-- The block device under the source store, src/virtio_blk.h: `struct vb_dev`, single-sector
-- requests and the flush request. The queue and the device's answer are not modelled: how the n-th
-- request ends is given by the field `completion`, which every theorem leaves open.
mod Laws
pub use Laws.*
pub mod Defs
unfoldable pub use Defs.*
