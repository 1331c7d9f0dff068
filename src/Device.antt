-- ===== src/Device.antt =====
-- kernel/device.c: the device table. `strcmp` of the host's C library is a parameter that tells
-- whether two names are equal. Calls of a driver go to the log `calls`, which is what a driver sees;
-- what it returns is dropped by the code. Messages are left out.
pub mod Table
use Prim.Native.Nat.{bit_or}
use fos.Prelude.{
  ℕ, zero, suc, ◌+◌, ◌-◌, ◌%◌, Bool, Option, none, some, List, [], ◌∷◌, ◌++◌, ltb, ◌==◌,
  if◌then◌else◌, update,
}
use fos.LinkedList.{Addr, null, Links, list_init, list_insert_behind, list_delete, is_list_last}
use fos.Kernel.{◌>>=◌}

abbrev pub no_device : ℕ
no_device = 16

-- OPERATIONS: pointers to the driver's functions, or NULL.
pub record Operations : Type 0 where
  pub open_fn : ℕ
  pub read : ℕ
  pub write : ℕ
  pub ioctrl : ℕ
  pub close : ℕ

pub record Device : Type 0 where
  pub enable : ℕ
  pub name : ℕ
  pub ops : Addr
  pub open_count : ℕ
  pub flag : ℕ

-- A call of the function at an address, with its arguments.
pub record Call : Type 0 where
  pub fn : ℕ
  pub args : List ℕ

pub record Devices : Type 0 where
  pub links : Links
  pub device : Addr → Device
  pub ops : Addr → Operations
  pub times : ℕ
  pub calls : List Call

-- The head of `device_queue_head`.
abbrev pub device_queue_head : Addr
device_queue_head = 34

abbrev pub set_device : Devices → Addr → Device → Devices
set_device s d x = record s { device = update s.device d x }

abbrev pub called : Devices → ℕ → List ℕ → Devices
called s fn args = record s { calls = s.calls ++ record { fn = fn; args = args } ∷ [] }

-- A call through a pointer that may be NULL.
abbrev pub call : Devices → ℕ → List ℕ → Devices
call s fn args = if fn == null then s else called s fn args

unfoldable pub device_queue_init : Devices → Devices
device_queue_init s =
    let s = record s { times = s.times + 1 } in
    if ltb s.times 2 then record s { links = list_init s.links device_queue_head } else s

unfoldable pub ops_init : (ops open_fn write read ioctrl close : ℕ) → Devices → ℕ × Devices
ops_init ops open_fn write read ioctrl close s = (
  0,
  record s {
    ops =
        update s.ops ops (record {
          open_fn = open_fn;
          read = read;
          write = write;
          ioctrl = ioctrl;
          close = close;
        });
  },
)

unfoldable pub device_register : ℕ → (device name ops : ℕ) → Devices → Option (ℕ × Devices)
device_register fuel device name ops s = if device == null then some (no_device, s) else do
  let d = s.device device
  let s =
      set_device s device
        (record d { name = name; ops = ops; flag = 0; open_count = (d.open_count + 1) % 256 })
  l ← list_insert_behind fuel s.links device_queue_head device
  some (0, record s { links = l })

unfoldable pub device_unregister : ℕ → Devices → ℕ × Devices
unfolding ops_init
device_unregister device s =
    if device == null
    then (no_device, s)
    else let s = (ops_init (s.device device).ops null null null null null s).1 in
      (0, record s { links = list_delete s.links device })

unfoldable pub device_read : (device buff size : ℕ) → Devices → ℕ × Devices
device_read device buff size s =
    if device == null
    then (no_device, s)
    else (0, call s (s.ops (s.device device).ops).read (buff ∷ size ∷ []))

unfoldable pub device_write : (device buff size : ℕ) → Devices → ℕ × Devices
device_write device buff size s =
    if device == null
    then (no_device, s)
    else (0, call s (s.ops (s.device device).ops).write (buff ∷ size ∷ []))

unfoldable pub device_ioctrl : (device cmd arg : ℕ) → Devices → ℕ × Devices
device_ioctrl device cmd arg s =
    if device == null
    then (no_device, s)
    else (0, call s (s.ops (s.device device).ops).ioctrl (cmd ∷ arg ∷ []))

unfoldable pub device_open : (device name flag : ℕ) → Devices → ℕ × Devices
device_open device name flag s =
    if device == null
    then (no_device, s)
    else let s = call s (s.ops (s.device device).ops).open_fn (name ∷ flag ∷ []) in
      let d = s.device device in
      (
        0,
        set_device s device
            (record d { flag = bit_or d.flag flag; open_count = (d.open_count + 1) % 256 }),
      )

unfoldable pub device_close : ℕ → Devices → ℕ × Devices
device_close device s =
    if device == null
    then (no_device, s)
    else let s = call s (s.ops (s.device device).ops).close [] in
      let d = s.device device in
      (0, set_device s device (record d { flag = 0; open_count = (d.open_count + 255) % 256 }))

-- The walk of `device_find` from `tmp`; the inner option is the device, or NULL.
unfoldable pub find_from : (ℕ → ℕ → Bool) → ℕ → Addr → ℕ → Devices → Option (Option Addr)
find_from same_name zero tmp name s = none
find_from same_name (suc rounds) tmp name s =
    let device = s.links.next tmp in
    let rest = find_from same_name rounds device name s in
    if is_list_last s.links tmp
    then some none
    else if same_name (s.device device).name name
    then some (some device)
    else rest

unfoldable pub device_find : (ℕ → ℕ → Bool) → ℕ → ℕ → Devices → Option (Option Addr)
unfolding find_from
device_find same_name fuel name s = find_from same_name fuel device_queue_head name s

-- The names that `device_traverse` prints.
unfoldable pub traverse_from : ℕ → Addr → Devices → Option (List ℕ)
traverse_from zero tmp s = none
traverse_from (suc rounds) tmp s =
    let device = s.links.next tmp in
    let name = (s.device device).name in
    let rest =
      (traverse_from rounds device s >>= λ names.
      some (if name == null then names else name ∷ names)) in
    if is_list_last s.links tmp then some [] else rest

unfoldable pub device_traverse : ℕ → Devices → Option (List ℕ)
unfolding traverse_from
device_traverse fuel s = traverse_from fuel device_queue_head s
