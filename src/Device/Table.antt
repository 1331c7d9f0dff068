-- ===== src/Device/Table.antt =====
-- kernel/device.c on the level of its table: what device_register, device_unregister and
-- device_find do to the list of the devices.
use fos.Prelude.{
  ℕ, zero, suc, ◌+◌, ◌%◌, ◌<◌, ◌≡◌, ◌≢◌, Bool, Option, none, some, List, [], ◌∷◌, ◌++◌, arith,
  if◌then◌else◌, length, ◌∈◌, ◌∉◌, ==_ne, remove,
}
use fos.LinkedList.{Addr, null, Links, list_insert_behind, list_insert}
use fos.LinkedList.Chain.{Chain, last, list_last-last, Chain-list_insert, Chain-list_delete}
use fos.Device.{
  Device, Devices, device_queue_head, device_register, device_unregister, device_find, find_from,
  set_device, device_open, device_close,
}

-- The device table: the list at the head, in the order of registration.
abbrev pub Registered : Devices → List Addr → Type 0
Registered s ds = Chain s.links device_queue_head ds

-- The first device of a name.
unfoldable pub first_named : (ℕ → ℕ → Bool) → (Addr → Device) → ℕ → List Addr → Option Addr
first_named same_name device name [] = none
first_named same_name device name (d ∷ ds) =
    if same_name (device d).name name then some d else first_named same_name device name ds

find_from-first :
    (same_name : ℕ → ℕ → Bool) (rounds tmp name : ℕ) (s : Devices) (ds : List Addr)
    → Chain s.links tmp ds
    → length ds < rounds
    → find_from same_name rounds tmp name s ≡ some (first_named same_name s.device name ds)
unfolding find_from first_named
find_from-first same_name zero tmp name s ds c f = absurd (omega arith)
find_from-first same_name (suc rounds) tmp name s [] c f = ground arith
find_from-first same_name (suc rounds) tmp name s (d ∷ ds) (n, p, o, c) f =
    ground (arith, find_from-first same_name rounds d name s ds c (omega arith))

-- `device_find` ends, with the first registered device of the name, or NULL.
pub device_find-first :
    (same_name : ℕ → ℕ → Bool) (fuel name : ℕ) (s : Devices) (ds : List Addr)
    → Registered s ds
    → length ds < fuel
    → device_find same_name fuel name s ≡ some (first_named same_name s.device name ds)
unfolding device_find
device_find-first same_name fuel name s ds c f =
    find_from-first same_name fuel device_queue_head name s ds c f

-- A new device goes to the end of the table, with its name and operations, no flag, and its open
-- count one higher (modulo 256).
pub device_register-appends :
    (fuel d name ops : ℕ) (s : Devices) (ds : List Addr)
    → Registered s ds
    → d ≢ null
    → d ∉ (device_queue_head ∷ ds)
    → length ds < fuel
    → (l : Links) × (device_register fuel d name ops s
        ≡ some (
          0,
          record (set_device s d (record (s.device d) {
            name = name;
            ops = ops;
            flag = 0;
            open_count = ((s.device d).open_count + 1) % 256;
          })) { links = l },
        ))
      × Chain l device_queue_head (ds ++ d ∷ [])
unfolding device_register list_insert_behind
device_register-appends fuel d name ops s ds c ne out f = (
  list_insert s.links (last device_queue_head ds) d,
  ground (arith, ==_ne d null ne, list_last-last fuel s.links device_queue_head ds c f),
  Chain-list_insert s.links device_queue_head d ds c out,
)

-- A device that is unregistered leaves the table, and its operations are all NULL.
pub device_unregister-removes :
    (d : ℕ) (s : Devices) (ds : List Addr)
    → Registered s ds
    → d ≢ null
    → d ∈ ds
    → Registered (device_unregister d s).1 (remove d ds)
      × ((device_unregister d s).1.ops (s.device d).ops
          ≡ record { open_fn = null; read = null; write = null; ioctrl = null; close = null })
unfolding device_unregister
device_unregister-removes d s ds c ne i =
    rw (==_ne d null ne) (Chain-list_delete s.links device_queue_head d ds c i, ground arith)

-- Opening and closing a device gives back its open count, and leaves no flag.
pub device_close-open :
    (d name flag : ℕ) (s : Devices)
    → d ≢ null
    → (s.device d).open_count < 256
    → (let s' = (device_close d (device_open d name flag s).1).1 in
        ((s'.device d).open_count ≡ (s.device d).open_count) × ((s'.device d).flag ≡ 0))
unfolding device_open device_close
device_close-open d name flag s ne lt = ground (arith, ==_ne d null ne)
