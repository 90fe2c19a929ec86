-- ===== src/Paging/Bare.antt =====
-- A small machine on which the theorems on paging are tried.
use sifar_os.Common.{
  ℕ, ◌+◌, ◌*◌, ◌≡◌, ◌==◌, ◌&&◌, refl, sym, subst, true, false, ◌∷◌, arith, replicate, if◌then◌else◌,
}
use sifar_os.Pmm.{Pmm, bit_test}
use sifar_os.Pmm.Bits.{count_set}
use sifar_os.Pmm.Inv
use sifar_os.Paging.Tables.{Vm, is_present, frame_of, translate_in, table_at}
use sifar_os.Paging.Frames.{IsSpace}
use sifar_os.Paging.Growing.{NoFrameZero}

-- Eight frames; frame 0 is reserved and the directory, which is empty, stands in frame 1.
abbrev pub eight : Pmm
eight = record {
  bitmap = true ∷ true ∷ false ∷ false ∷ false ∷ false ∷ false ∷ false ∷ replicate 24 true;
  bitmap_words = 1;
  total_frames = 8;
  used_frames = 2;
  total_bytes = 0x8000;
}

abbrev pub bare : Vm
bare = record { pmm = eight; frames = λ f i. 0; mapped_pages = 0 }

eight-IsValid : Inv.IsValid eight
unfolding count_set
eight-IsValid = record { used = refl; words = refl; size = refl; small = omega arith }

clash : false ≡ true → ⊥
clash e = cc

pub bare-IsSpace : IsSpace bare 1
bare-IsSpace = record {
  frames_valid = eight-IsValid;
  dir_taken = refl;
  tables_taken = λ i h p. absurd (clash p);
  apart = λ i h p. absurd (clash p);
  distinct = λ i j h k p q e. absurd (clash p);
}

-- Eight frames of which the first three are taken: the directory in frame 1 has one table, in frame 2,
-- which maps every page of the first 4 MiB to itself, page 0 to frame 0 with them.
abbrev pub based : Vm
based = record {
  pmm = record {
    bitmap = true ∷ true ∷ true ∷ false ∷ false ∷ false ∷ false ∷ false ∷ replicate 24 true;
    bitmap_words = 1;
    total_frames = 8;
    used_frames = 3;
    total_bytes = 0x8000;
  };
  frames = λ f i. if f == 1 && i == 0 then 0x2003 else if f == 2 then i * 4096 + 3 else 0;
  mapped_pages = 1024;
}

based-IsValid : Inv.IsValid based.pmm
unfolding count_set
based-IsValid = record { used = refl; words = refl; size = refl; small = omega arith }

pub based-IsSpace : IsSpace based 1
based-IsSpace = record {
  frames_valid = based-IsValid;
  dir_taken = refl;
  tables_taken = λ i h p. subst (λ x. bit_test based.pmm x ≡ true) (sym (in_two i p)) refl;
  apart = λ i h p e. absurd (omega (arith, in_two i p));
  distinct = λ i j h k p q e. ground arith;
}
  where
    in_two : (i : ℕ) → is_present (based.frames 1 i) ≡ true → frame_of (based.frames 1 i) ≡ 2
    in_two i p = ground arith

pub based-NoFrameZero : NoFrameZero based 1
unfolding NoFrameZero translate_in table_at
based-NoFrameZero v l h e = ground arith
