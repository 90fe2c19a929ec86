-- ===== src/Proc/Memory.antt =====
-- The searches of the table, the checks of a user's pointer, and `proc_sbrk`.
use sifar_os.Common.{
  ℕ, zero, suc, ◌+◌, ◌-◌, ◌*◌, ◌/◌, ◌%◌, ◌^◌, Bool, true, false, ◌&&◌, ◌||◌, not, Option, none,
  some, List, [], ◌∷◌, if◌then◌else◌, leb, ltb, ◌==◌, min, set,
}
use sifar_os.Paging.{Vm, page_size, user_max, align_up}
use sifar_os.Paging.{access_ok_in, alloc_range, free_range}

pub data ProcState : Type 0 where
  proc_free : ProcState
  proc_running : ProcState
  proc_zombie : ProcState

-- `pd` is the frame of the directory of the process's space.
pub record Process : Type 0 where
  pub pid : ℕ
  pub state : ProcState
  pub cleaned : Bool
  pub pd : ℕ
  pub brk_start : ℕ
  pub brk : ℕ
  pub stack_top : ℕ
  pub user_pages : ℕ

abbrev pub is_free : ProcState → Bool
is_free proc_free = true
is_free proc_running = false
is_free proc_zombie = false

-- `proc_by_pid`: the index in the table, from `i` on.
unfoldable pub by_pid : List Process → ℕ → ℕ → Option ℕ
by_pid [] pid i = none
by_pid (p ∷ ps) pid i =
    let rest = by_pid ps pid (i + 1) in
    if not (is_free p.state) && (p.pid == pid) then some i else rest

-- `proc_count`
unfoldable pub count : List Process → ℕ
count [] = 0
count (p ∷ ps) = (if is_free p.state then 0 else 1) + count ps

-- `proc_user_range_ok` and `proc_user_write_ok`; `none` is the kernel's process.
unfoldable pub user_range_ok : Vm → Option Process → ℕ → ℕ → Bool
user_range_ok m none start len = false
user_range_ok m (some p) start len = access_ok_in m p.pd start len false

unfoldable pub user_write_ok : Vm → Option Process → ℕ → ℕ → Bool
user_write_ok m none start len = false
user_write_ok m (some p) start len = access_ok_in m p.pd start len true

-- The loop of `proc_copy_user_string`, `n` bytes of room left before the last: the length or -1, and
-- the buffer. `bytes` is what the user's addresses read as.
unfoldable pub copy_loop : (ℕ → Bool) → (ℕ → ℕ) → ℕ → ℕ → ℕ → List ℕ → Option ℕ × List ℕ
copy_loop ok bytes zero user i out = (none, set out i 0)
copy_loop ok bytes (suc n) user i out =
    let c = bytes ((user + i) % 2 ^ 32) in
    let rest = copy_loop ok bytes n user (i + 1) (set out i c) in
    if not (ok ((user + i) % 2 ^ 32))
    then (none, set out 0 0)
    else if c == 0
    then (some i, set out i c)
    else rest

unfoldable pub copy_user_string : Vm → Option Process → (ℕ → ℕ) → ℕ → List ℕ → ℕ → Option ℕ × List ℕ
unfolding copy_loop
copy_user_string m p bytes user out size =
    if user == 0 || size == 0
    then (none, out)
    else copy_loop (λ a. user_range_ok m p a 1) bytes (size - 1) user 0 out

-- What `proc_sbrk` gives: the break before or 0, the process and the machine.
pub record Sbrk : Type 0 where
  pub result : ℕ
  pub process : Process
  pub machine : Vm

abbrev pub refused : Process → Vm → Sbrk
refused p m = record { result = 0; process = p; machine = m }

-- The lowest address of the stack, which has 16 pages.
abbrev pub stack_floor : Process → ℕ
stack_floor p = (p.stack_top + 2 ^ 32 - 16 * page_size) % 2 ^ 32

abbrev pub more_pages : Process → ℕ → ℕ
more_pages p target =
    (p.user_pages + (align_up target + 2 ^ 32 - align_up p.brk) % 2 ^ 32 / page_size) % 2 ^ 32

-- After `vmm_alloc_range`.
abbrev pub grown : Process → ℕ → Bool × Vm → Sbrk
grown p target (false, m) = refused p m
grown p target (true, m) = record {
  result = p.brk;
  process = record p { brk = target; user_pages = more_pages p target };
  machine = m;
}

-- `increment > 0`
unfoldable pub sbrk_grow : Process → Vm → ℕ → Sbrk
sbrk_grow p m increment =
    let target = p.brk + increment in
    if leb (stack_floor p) target || ltb user_max target
    then refused p m
    else grown p target (alloc_range m p.pd p.brk increment 7)

-- `increment < 0`, where `shrink` is its absolute value.
unfoldable pub sbrk_shrink : Process → Vm → ℕ → Sbrk
sbrk_shrink p m shrink =
    let brk = (p.brk + 2 ^ 32 - min shrink ((p.brk + 2 ^ 32 - p.brk_start) % 2 ^ 32)) % 2 ^ 32 in
    let old_top = align_up p.brk in
    let new_top = align_up brk in
    let pages = (old_top - new_top) / page_size in
    if ltb new_top old_top
    then record {
      result = p.brk;
      process = record p { brk = brk; user_pages = p.user_pages - pages };
      machine = free_range m p.pd new_top (old_top - new_top);
    }
    else record { result = p.brk; process = record p { brk = brk }; machine = m }

-- `proc_sbrk`, where `increment` is the pattern of a signed word; `none` is the kernel's process.
unfoldable pub sbrk : Option Process → Vm → ℕ → Option Sbrk
sbrk none m increment = none
sbrk (some p) m increment = some (
    if increment == 0
    then record { result = p.brk; process = p; machine = m }
    else if ltb increment (2 ^ 31)
    then sbrk_grow p m increment
    else sbrk_shrink p m (2 ^ 32 - increment))
