-- ===== src/Proc/Tests.antt =====
-- A process on a small machine, and the theorem at it.
use sifar_os.Common.{false, arith}
use sifar_os.Paging.Bare.{based, based-IsSpace, based-NoFrameZero}
use sifar_os.Proc.Memory.{Process, proc_running, sbrk_grow}
use sifar_os.Proc.Grow.{Extends, sbrk_grow-Extends}

abbrev first_process : Process
first_process = record {
  pid = 1;
  state = proc_running;
  cleaned = false;
  pd = 1;
  brk_start = 0x40000000;
  brk = 0x40000010;
  stack_top = 0xC0000000;
  user_pages = 0;
}

sbrk_grow-Extends_example :
    Extends first_process based 0x1000 (sbrk_grow first_process based 0x1000)
sbrk_grow-Extends_example =
    sbrk_grow-Extends first_process based 0x1000 based-IsSpace based-NoFrameZero (omega arith)
      (omega arith)
