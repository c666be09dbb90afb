-- ===== src/Device/Laws.antt =====
-- What the source store uses of the device.
use zealos_aarch64_bringup.Base.{
  ℕ, suc, ◌<◌, ◌≡◌, refl, ◌≢◌, true, false, not, ◌||◌, none, some, arith, ◌⊎◌, inl, inr, Bool-cases,
}
use zealos_aarch64_bringup.Device.Defs.{
  Sector, Medium, Completion, done, failed, torn, Device, write_at, rejects, read_abs, write_abs,
  flush_abs,
}

-- The device after some requests that left the medium alone.
abbrev pub at_request : Device → ℕ → Device
at_request d n = record d { requests = n }

-- Every request ends well, and the device is set up as virtio_blk_init leaves a PCI disk.
pub record IsHealthy (d : Device) : Type 0 where
  pub is_ready : d.ready ≡ true
  pub is_pci : d.pci ≡ true
  pub has_capacity : d.capacity ≢ 0
  pub has_buffer : 0 < d.data_sectors
  pub all_done : (n : ℕ) → d.completion n ≡ done

-- What the medium holds and how many requests came before do not matter.
pub IsHealthy-changed :
    {d : Device} (m : Medium) (n : ℕ)
    → IsHealthy d
    → IsHealthy (record d { medium = m; requests = n })
IsHealthy-changed m n h = record {
  is_ready = h.is_ready;
  is_pci = h.is_pci;
  has_capacity = h.has_capacity;
  has_buffer = h.has_buffer;
  all_done = h.all_done;
}

-- A read, whatever its outcome, only counts a request; what it returns is on the medium.
pub read_abs-same :
    (d : Device) (lba : ℕ)
    → ((read_abs d lba).0 ≡ at_request d (read_abs d lba).0.requests)
      × (((read_abs d lba).1 ≡ none) ⊎ ((read_abs d lba).1 ≡ some (d.medium lba)))
unfolding read_abs
read_abs-same d lba = ground arith

pub flush_abs-same : (d : Device) → (flush_abs d).0 ≡ at_request d (flush_abs d).0.requests
unfolding flush_abs
flush_abs-same d = ground arith

pub read_abs-healthy :
    (d : Device) (lba : ℕ)
    → IsHealthy d
    → lba < d.full_capacity
    → read_abs d lba ≡ (at_request d (suc d.requests), some (d.medium lba))
unfolding read_abs
read_abs-healthy d lba h lt = ground (arith, h.all_done d.requests)

pub write_abs-healthy :
    (d : Device) (lba : ℕ) (s : Sector)
    → IsHealthy d
    → lba < d.full_capacity
    → write_abs d lba s
      ≡ (record d { medium = write_at d.medium lba s; requests = suc d.requests }, true)
unfolding write_abs
write_abs-healthy d lba s h lt = ground (arith, h.all_done d.requests)

pub flush_abs-healthy :
    (d : Device)
    → IsHealthy d
    → d.flush_supported ≡ true
    → flush_abs d ≡ (at_request d (suc d.requests), true)
unfolding flush_abs
flush_abs-healthy d h s = ground (arith, h.all_done d.requests)

-- A write that reports success has written exactly its sector.
pub write_abs-true :
    (d : Device) (lba : ℕ) (s : Sector)
    → (write_abs d lba s).1 ≡ true
    → (write_abs d lba s).0
      ≡ record d { medium = write_at d.medium lba s; requests = suc d.requests }
unfolding write_abs
write_abs-true d lba s h = ground arith

Completion-cases : (c : Completion) → (c ≡ done) ⊎ ((c ≡ failed) ⊎ ((g : Sector) × (c ≡ torn g)))
Completion-cases done = inl refl
Completion-cases failed = inr (inl refl)
Completion-cases (torn g) = inr (inr (g, refl))

-- The three ends of a write.
pub write_abs-cases :
    (d : Device) (lba : ℕ) (s : Sector)
    → (write_abs d lba s
        ≡ (record d { medium = write_at d.medium lba s; requests = suc d.requests }, true))
      ⊎ (((n : ℕ) × (write_abs d lba s ≡ (at_request d n, false)))
          ⊎ ((g : Sector) × (d.completion d.requests ≡ torn g)
              × (write_abs d lba s ≡ (
                record d { medium = write_at d.medium lba g; requests = suc d.requests },
                false,
              ))))
unfolding write_abs
write_abs-cases d lba s = elim (Bool-cases (not d.ready || not d.pci)) [
  | inl off ↦ inr (inl (d.requests, rw off refl))
  | inr on ↦ elim (Bool-cases (rejects d lba true)) [
    | inl bad ↦ inr (inl (d.requests, ground arith))
    | inr good ↦ elim (Completion-cases (d.completion d.requests)) [
      | inl e ↦ inl (ground arith)
      | inr (inl e) ↦ inr (inl (suc d.requests, ground arith))
      | inr (inr (g, e)) ↦ inr (inr (g, e, ground arith))
    ]
  ]
]
