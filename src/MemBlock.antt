-- ===== src/MemBlock.antt =====
-- kernel/mem_block.c: the block allocator. A block's descriptor is a local variable of
-- `mem_alloca`, so its address `mb` is an argument. Interrupts go through the port.
pub mod Laws
use fos.Prelude.{
  ℕ, zero, suc, ◌+◌, ◌-◌, ◌*◌, ◌/◌, ◌%◌, ◌^◌, Bool, true, false, Option, none, some, ltb, ◌==◌,
  if◌then◌else◌, update,
}
use fos.LinkedList.{Addr, null, Links, list_init, list_insert_behind, is_list_last}
use fos.Kernel.{Port, ◌>>=◌, true_code, false_code}

-- MEM_POOL; its head has the address `head`.
pub record MemPool : Type 0 where
  pub size : ℕ
  pub valid : ℕ
  pub valid_ptr : ℕ

pub record MemBlock : Type 0 where
  pub ptr : ℕ
  pub if_valid : ℕ
  pub flag : ℕ

pub record Memory : Type 0 where
  pub links : Links
  pub pool : MemPool
  pub block : Addr → MemBlock
  pub sr : ℕ

unfoldable pub mem_create : (head start sum block_size : ℕ) → Memory → Memory
mem_create head start sum block_size m = record m {
  pool = record { size = block_size; valid = sum / block_size; valid_ptr = start };
  links = list_init m.links head;
}

module _ (port : Port) (fuel : ℕ) (head : Addr) where
  -- The result is the address, or NULL. `valid` is a `U32`, and `n` is cut to one in the sum.
  unfoldable pub mem_alloca : (mb size : ℕ) → Memory → Option (ℕ × Memory)
  mem_alloca mb size m =
      let cpu_status = (port.interrupt_disable m.sr).0 in
      let sr = port.interrupt_enable cpu_status (port.interrupt_disable m.sr).1 in
      let n = size / m.pool.size in
      let valid = (m.pool.valid + 2 ^ 33 - n - 1) % 2 ^ 32 in
      let address = m.pool.valid_ptr in
      if ltb 0 valid
      then (do
        l ← list_insert_behind fuel m.links head mb
        some (
          address,
          record m {
            links = l;
            pool = record (m.pool) {
              valid = valid;
              valid_ptr = m.pool.valid_ptr + valid * m.pool.size % 2 ^ 32;
            };
            block = update m.block mb (record { ptr = address; if_valid = 0; flag = n + 1 });
            sr = sr;
          },
        ))
      else some (null, record m { pool = record (m.pool) { valid = valid }; sr = sr })

  -- The walk of `mem_free` from `tmp`: the descriptor of the address, if there is one.
  unfoldable pub find_block : ℕ → Addr → ℕ → Memory → Option (Option Addr)
  find_block zero tmp address m = none
  find_block (suc rounds) tmp address m =
      let mb = m.links.next tmp in
      let rest = find_block rounds mb address m in
      if is_list_last m.links tmp
      then some none
      else if (m.block mb).ptr == address
      then some (some mb)
      else rest

  -- The `return` in the loop leaves the interrupts off.
  unfoldable pub mem_free : ℕ → Memory → Option (ℕ × Memory)
  unfolding find_block
  mem_free address m = do
    let off = record m { sr = (port.interrupt_disable m.sr).1 }
    found ← find_block fuel head address off
    some (elim found [
      | some mb ↦ (
        true_code,
        record off { block = update m.block mb (record (m.block mb) { if_valid = 1 }) },
      )
      | none ↦ (
        false_code,
        record off { sr = port.interrupt_enable (port.interrupt_disable m.sr).0 off.sr },
      )
    ])
