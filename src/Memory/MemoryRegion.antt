-- ===== src/Memory/MemoryRegion.antt =====
-- hologine/core/memory/memory_region.cpp: a region of virtual memory that is committed page by
-- page, with the sizes of code/hologine_platform/windows/core/memory/memory_region_base.cpp.
pub mod Pages
mod Grow
pub mod Runs
pub mod Results
mod Tests
use hologine.Base.{
  ℕ, ◌+◌, ◌-◌, ◌*◌, ◌/◌, ◌%◌, ◌^◌, Bool, true, false, List, [], ◌∷◌, ◌++◌, max, ltb, leb, ◌==◌, not,
  if◌then◌else◌,
}
use hologine.Exception.Codes.{ExceptionCode}
use hologine.Math.Util.{round_up, multiple_of}

-- `memory` is 0 while nothing is reserved.
pub record MemoryRegion : Type 0 where
  pub max_size : ℕ
  pub current_size : ℕ
  pub memory : ℕ

-- What an operation does besides: VirtualAlloc and VirtualFree with the offset from the region's
-- address and the number of bytes, each with what the system answers, and the exceptions that are
-- pushed.
pub data Call : Type 0 where
  reserve : ℕ → ℕ → Call
  commit : ℕ → ℕ → Bool → Call
  decommit : ℕ → ℕ → Bool → Call
  release : ℕ → ℕ → Bool → Call
  push_exception : ExceptionCode → Call

abbrev pub get_page_size : ℕ
get_page_size = 0x1000

abbrev pub get_granularity : ℕ
get_granularity = 0x10000

-- `size_t` bytes of a number of pages
abbrev pub page_bytes : ℕ → ℕ
page_bytes count = count * get_page_size % 2 ^ 64

abbrev pub pushed_unless : Bool → List Call
pushed_unless ok = if ok then [] else push_exception ExceptionCode.platform ∷ []

abbrev pub reserve_pages : ℕ → ℕ → List Call
reserve_pages max_pages memory =
    reserve (page_bytes max_pages) memory ∷ pushed_unless (not (memory == 0))

abbrev pub release_pages : ℕ → ℕ → Bool → List Call
release_pages index count ok = release (page_bytes index) (page_bytes count) ok ∷ pushed_unless ok

abbrev pub commit_pages : ℕ → ℕ → Bool → List Call
commit_pages index count ok = commit (page_bytes index) (page_bytes count) ok ∷ pushed_unless ok

abbrev pub decommit_pages : ℕ → ℕ → Bool → List Call
decommit_pages index count ok = decommit (page_bytes index) (page_bytes count) ok ∷ pushed_unless ok

pub memory_region : ℕ → MemoryRegion
memory_region max_size = record { max_size = max_size; current_size = 0; memory = 0 }

abbrev pub memory_region_default : MemoryRegion
unfolding memory_region
memory_region_default = memory_region 0

-- The region that is assigned to, and the one that is moved from.
abbrev pub move : MemoryRegion → MemoryRegion × MemoryRegion
move other = (other, record { max_size = 0; current_size = 0; memory = 0 })

pub get_minimum_size : ℕ → ℕ
get_minimum_size hint = round_up hint (max get_page_size get_granularity)

pub get_reserved_size : MemoryRegion → ℕ
unfolding get_minimum_size
get_reserved_size r = if r.max_size == 0 then 0 else get_minimum_size r.max_size

abbrev pub get_current_size : MemoryRegion → ℕ
get_current_size r = if r.current_size == 0 then 0 else round_up r.current_size get_page_size

pub page_count : ℕ → ℕ
page_count size = if size == 0 then 0 else multiple_of size get_page_size

-- `grow` behind the reservation: the pointer, the calls and the new region. `committed` is what
-- `commit_pages` answers, if it is called.
pub grow_reserved : ℕ → Bool → MemoryRegion → ℕ × List Call × MemoryRegion
unfolding page_count
grow_reserved size committed r =
    let new_size = (size + r.current_size) % 2 ^ 64 in
    let current_page_count = page_count r.current_size in
    let new_page_count = page_count new_size in
    let grown = record r { current_size = new_size } in
    let calls = commit_pages current_page_count (new_page_count - current_page_count) committed in
    if ltb r.max_size new_size
    then (0, push_exception ExceptionCode.out_of_memory ∷ [], r)
    else if ltb current_page_count new_page_count
    then (if committed then (r.memory, calls, grown) else (0, calls, r))
    else (r.memory, [], grown)

-- `reserved` is what `reserve_pages` answers, if it is called.
pub grow : ℕ → ℕ → Bool → MemoryRegion → ℕ × List Call × MemoryRegion
unfolding grow_reserved get_reserved_size
grow size reserved committed r =
    let calls = reserve_pages (get_reserved_size r / get_page_size) reserved in
    let grown = grow_reserved size committed (record r { memory = reserved }) in
    if not (r.memory == 0)
    then grow_reserved size committed r
    else if r.max_size == 0
    then (0, [], r)
    else if reserved == 0
    then (0, calls, r)
    else (grown.0, calls ++ grown.1, grown.2)

pub claim : ℕ → Bool → MemoryRegion → ℕ × List Call × MemoryRegion
unfolding grow
claim reserved committed r =
    let remaining_size = (r.max_size + 2 ^ 64 - r.current_size) % 2 ^ 64 in
    if remaining_size == 0
    then (0, push_exception ExceptionCode.invalid_operation ∷ [], r)
    else grow remaining_size reserved committed r

-- `decommitted` and `released` are what the system answers, if it is called. The address is forgotten
-- whether or not the release succeeds.
pub reset : Bool → Bool → Bool → MemoryRegion → List Call × MemoryRegion
unfolding get_reserved_size
reset release_region decommitted released r =
    let calls =
      if ltb 0 r.current_size
      then decommit_pages 0 (multiple_of r.current_size get_page_size) decommitted
      else [] in
    let emptied = record r { current_size = 0 } in
    if r.memory == 0
    then ([], r)
    else if release_region
    then (
      calls ++ release_pages 0 (get_reserved_size r / get_page_size) released,
      record emptied { memory = 0 },
    )
    else (calls, emptied)

-- The destructor
abbrev pub destroy : Bool → Bool → MemoryRegion → List Call × MemoryRegion
destroy decommitted released r = reset true decommitted released r
