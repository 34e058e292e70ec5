-- ===== src/Requests.antt =====
-- io_request of module/dysk_bdd.c: the requests in the queue of a dysk are refused or given to
-- az_do_request of module/az.c. A request is taken off the queue by blk_start_request; one that
-- az_do_request has no memory for stays, and the loop peeks at it again. What the allocations answer
-- in one round is a value of `Memory`.
pub mod Served
pub mod Once
use dysk.Base.{
  Bool, List, Option, [], eq_ℤ, false, if◌then◌else◌, neg, none, not, pos, some, true, ℕ, ℤ, ◌&&◌,
  ◌++◌, ◌==◌, ◌∷◌,
}
use dysk.Worker.{Status, dysk_ok, dysk_deleting, dysk_catastrophe_mode}
use dysk.Registry.{Dysk}
use dysk.Transfer.Send.{BlkRequest}
use dysk.Transfer.World.{World, az_do_request}

pub record Memory : Type 0 where
  pub reqstate : Option ℕ
  pub task_alloc : Bool

-- `refused` are the requests that io_request itself ended, oldest first.
pub record Disk : Type 0 where
  pub world : World
  pub refused : List (ℕ × ℤ)

abbrev pub enodev : ℤ
enodev = neg 19

abbrev pub erofs : ℤ
erofs = neg 30

abbrev pub is_ok : Status → Bool
is_ok dysk_ok = true
is_ok dysk_deleting = false
is_ok dysk_catastrophe_mode = false

-- blk_start_request and io_end_request
abbrev pub refuse : ℕ → ℤ → Disk → Disk
refuse req err d = record d { refused = d.refused ++ (req, err) ∷ [] }

-- The body of the loop, for the request at the head: the disk afterwards, and whether the request
-- was started.
unfoldable pub serve : Dysk → (ℕ → BlkRequest) → Memory → ℕ → Disk → Disk × Bool
serve d blk m req disk =
    if not (is_ok d.status)
    then (refuse req enodev disk, true)
    else if (blk req).write && d.def.read_only == 1
    then (refuse req erofs disk, true)
    else let (w, success) = az_do_request m.reqstate m.task_alloc req disk.world in
      (record disk { world = w }, eq_ℤ success (pos 0))

-- The loop, on what the allocations answer in its rounds: `none` when it has not ended after them.
unfoldable pub io_request : Dysk → (ℕ → BlkRequest) → List Memory → List ℕ → Disk → Option Disk
io_request d blk ms [] disk = some disk
io_request d blk [] (req ∷ reqs) disk = none
io_request d blk (m ∷ ms) (req ∷ reqs) disk =
    let (disk', started) = serve d blk m req disk in
    let on = io_request d blk ms reqs disk' in
    let again = io_request d blk ms (req ∷ reqs) disk' in if started then on else again
