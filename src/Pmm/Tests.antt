-- ===== src/Pmm/Tests.antt =====
-- Runs of the frame allocator, and the theorems at concrete states.
use sifar_os.Common.{
  ◌*◌, ◌≡◌, refl, true, false, List, [], ◌∷◌, some, arith, leb, not, ◌&&◌, replicate,
}
use sifar_os.Pmm.{
  Pmm, Region, page_size, bit_test, init, survey, survey_region, release_regions, mark_free,
  mark_free_loop, mark_free_one, mark_used, mark_used_loop, mark_used_one, alloc_frame,
  alloc_frames, find_run, take_run, scan_words, scan_word, all_set, free_contiguous, reserved_end,
}
use sifar_os.Pmm.Bits.{count_set}
use sifar_os.Pmm.Inv.{IsValid}
use sifar_os.Pmm.Init.{init-bit, covered}
use sifar_os.Pmm.Alloc.{FirstFit, alloc_frame-FirstFit}
use sifar_os.Pmm.Runs.{FirstRun, alloc_frames-FirstRun}
use sifar_os.Pmm.Free.{free_contiguous-alloc_frames}

-- Six frames in one word; frames 0 and 3 are taken, and so are the bits past the end.
abbrev six : Pmm
six = record {
  bitmap = true ∷ false ∷ false ∷ true ∷ false ∷ false ∷ replicate 26 true;
  bitmap_words = 1;
  total_frames = 6;
  used_frames = 2;
  total_bytes = 24576;
}

six-IsValid : IsValid six
unfolding count_set
six-IsValid = record { used = refl; words = refl; size = refl; small = omega arith }

abbrev one_region : List Region
one_region =
    record { base = 0; length = 0x8000; type = 1 }
    ∷ record { base = 0x8000; length = 0x1000; type = 2 }
    ∷ []

-- The kernel ends at 0x4800: the bitmap follows, frames 5, 6 and 7 are left.
abbrev booted : Pmm
booted = record {
  bitmap = true ∷ true ∷ true ∷ true ∷ true ∷ false ∷ false ∷ false ∷ replicate 24 true;
  bitmap_words = 1;
  total_frames = 8;
  used_frames = 5;
  total_bytes = 0x8000;
}

init-booted : init 0x4800 one_region ≡ some booted
unfolding init survey survey_region release_regions mark_free mark_free_loop mark_free_one mark_used
    mark_used_loop mark_used_one
init-booted = refl

init-bit_example :
    IsValid booted
    × (bit_test booted 5
        ≡ not (covered one_region 5 && leb (reserved_end 0x4800 1) (5 * page_size)))
init-bit_example = init-bit 0x4800 one_region booted 5 (omega arith) init-booted (omega arith)

alloc_frame-FirstFit_example : FirstFit six (alloc_frame six)
alloc_frame-FirstFit_example = alloc_frame-FirstFit six six-IsValid

alloc_frame_runs : (alloc_frame six).0 ≡ 4096
unfolding alloc_frame scan_words scan_word all_set
alloc_frame_runs = refl

alloc_frames_runs : ((alloc_frames six 2).0 ≡ 4096) × ((alloc_frames six 3).0 ≡ 0)
unfolding alloc_frames find_run take_run
alloc_frames_runs = (refl, refl)

alloc_frames-FirstRun_example : FirstRun six 2 (alloc_frames six 2)
alloc_frames-FirstRun_example = alloc_frames-FirstRun six 2 six-IsValid (omega arith)

free_contiguous-alloc_frames_example : free_contiguous (alloc_frames six 2).1 4096 2 ≡ six
unfolding alloc_frames find_run take_run
free_contiguous-alloc_frames_example =
    free_contiguous-alloc_frames six 2 4096 _ six-IsValid (omega arith) refl (omega arith)
