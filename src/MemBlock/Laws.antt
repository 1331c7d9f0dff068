-- ===== src/MemBlock/Laws.antt =====
-- kernel/mem_block.c on the level of the list of its descriptors.
use fos.Prelude.{
  ℕ, zero, suc, ◌<◌, ◌≡◌, Option, none, some, List, [], ◌∷◌, arith, ◌==◌, if◌then◌else◌, update,
  length,
}
use fos.LinkedList.{Addr}
use fos.LinkedList.Chain.{Chain}
use fos.Kernel.{Port, true_code, false_code}
use fos.MemBlock.{Memory, MemBlock, mem_free, find_block}

-- The first descriptor in a list that holds an address.
unfoldable pub holder : (Addr → MemBlock) → ℕ → List Addr → Option Addr
holder block address [] = none
holder block address (mb ∷ mbs) =
    if (block mb).ptr == address then some mb else holder block address mbs

find_block-holder :
    (port : Port) (fuel : ℕ) (head : Addr) (rounds : ℕ) (tmp address : ℕ) (m : Memory)
    (mbs : List Addr)
    → Chain m.links tmp mbs
    → length mbs < rounds
    → find_block port fuel head rounds tmp address m ≡ some (holder m.block address mbs)
unfolding find_block holder
find_block-holder port fuel head zero tmp address m mbs c f = absurd (omega arith)
find_block-holder port fuel head (suc rounds) tmp address m [] c f = ground arith
find_block-holder port fuel head (suc rounds) tmp address m (mb ∷ mbs) (n, p, o, c) f =
    ground (arith, find_block-holder port fuel head rounds mb address m mbs c (omega arith))

-- `mem_free` ends. Where a descriptor holds the address it marks the first such one as free,
-- returns TRUE, and leaves the interrupts off; otherwise it returns FALSE, and changes nothing.
pub mem_free-holder :
    (port : Port) (fuel : ℕ) (head : Addr) (address : ℕ) (m : Memory) (mbs : List Addr)
    → Chain m.links head mbs
    → length mbs < fuel
    → mem_free port fuel head address m
      ≡ some (elim (holder m.block address mbs) [
        | some mb ↦ (
          true_code,
          record m {
            block = update m.block mb (record (m.block mb) { if_valid = 1 });
            sr = (port.interrupt_disable m.sr).1;
          },
        )
        | none ↦ (false_code, m)
      ])
unfolding mem_free
mem_free-holder port fuel head address m mbs c f =
    let off : Memory = record m { sr = (port.interrupt_disable m.sr).1 } in
    ground
      (arith, find_block-holder port fuel head fuel head address off mbs c f, port.restores m.sr)

-- The pool has `valid` blocks of `block_size` left, and hands out `ptr` next.
record Stands (block_size valid ptr : ℕ) (m : Memory) : Type 0 where
  same_size : m.pool.size ≡ block_size
  same_valid : m.pool.valid ≡ valid
  same_ptr : m.pool.valid_ptr ≡ ptr
