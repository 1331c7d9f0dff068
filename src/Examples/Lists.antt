-- ===== src/Examples/Lists.antt =====
-- The theorems on lists and on the map of ready priorities, at the state of State.
use fos.Prelude.{ℕ, ◌<◌, ◌≡◌, refl, true, false, [], arith, update}
use fos.LinkedList.{list_delete}
use fos.LinkedList.Shape.{Shape, Loose, Shape-list_delete}
use fos.PrioMap.{bitmap_get}
use fos.PrioMap.Set.{bitmap_get-least}
use fos.Sched.Models.{is_ready}
use fos.Examples.State.{head, boot, lists, boot-Models}

node-Loose : Loose head lists 302
node-Loose = record { free = λ h hh. ground arith; no_head = refl }

Shape-list_delete_example : Shape head (list_delete boot.links 300) (update lists 121 [])
Shape-list_delete_example = Shape-list_delete boot-Models.shape 121 300 refl refl

bitmap_get-least_example :
    (is_ready lists (bitmap_get boot.map) ≡ true)
    × (bitmap_get boot.map < 64)
    × ((q : ℕ) → q < bitmap_get boot.map → is_ready lists q ≡ false)
bitmap_get-least_example = bitmap_get-least boot-Models.map 31 (omega arith) refl
