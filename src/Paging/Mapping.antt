-- ===== src/Paging/Mapping.antt =====
-- `vmm_map_in`, read back by `vmm_translate_in`.
use sifar_os.Common.{
  ℕ, ◌+◌, ◌/◌, ◌%◌, ◌^◌, ◌<◌, ◌≡◌, ◌≢◌, refl, sym, ap, subst, Bool, true, false, ◌&&◌, ◌||◌, not,
  Option, none, some, arith, inl, inr, ◌==◌, if◌then◌else◌, Bool-cases, if_elim, ◌∙◌,
}
use sifar_os.Pmm.{bit_test}
use sifar_os.Paging.Tables.{
  Vm, page_size, is_present, is_user, set_present, frame_of, align_down, poke, dir_index,
  table_index, table_for, translate_in, map_in, write_entry, user_page,
}
use sifar_os.Paging.Frames.{IsSpace, IsSpace-keep, Shape, IsSpace-Shape, seen, translate_in-seen}
use sifar_os.Paging.Opening.{Opens, table_for-Opens, same_seen}

abbrev pub same_page : ℕ → ℕ → Bool
same_page v virt = v / 4096 == virt / 4096

-- A store to an entry of a table, not of the directory.
abbrev pub poked : Vm → ℕ → ℕ → ℕ → ℕ → Vm
poked m t i w n = record m { frames = poke m.frames t i w; mapped_pages = n }

poked-IsSpace : (m : Vm) (pd t i w n : ℕ) → IsSpace m pd → t ≢ pd → IsSpace (poked m t i w n) pd
poked-IsSpace m pd t i w n s ne =
    IsSpace-keep m (poked m t i w n) pd s s.frames_valid (λ g x. x)
      (λ j k. (ground (arith, ne), ground (arith, ne)))

-- The entry of the one page changes, and what every other address reads does not.
pub poked-translate :
    (m : Vm) (pd virt w n v : ℕ)
    → Shape m pd
    → virt < 2 ^ 32
    → v < 2 ^ 32
    → is_present (m.frames pd (dir_index virt)) ≡ true
    → translate_in (poked m (frame_of (m.frames pd (dir_index virt))) (table_index virt) w n) pd v
      ≡ (if same_page v virt
          then (if is_present w then align_down w + v % 4096 else 0)
          else translate_in m pd v)
poked-translate m pd virt w n v s h k p =
    let t : ℕ = frame_of (m.frames pd (dir_index virt)) in
    let m' : Vm = poked m t (table_index virt) w n in
    let ne : t ≢ pd = s.away (dir_index virt) (omega arith) p in
    if_elim (λ x. translate_in m' pd v ≡ x) (same_page v virt) _ _
      (λ same.
        let e : dir_index virt ≡ dir_index v = ground arith in
        translate_in-seen m' pd v
        ∙ (ap (λ x. seen (m'.frames pd x) (m'.frames (frame_of (m'.frames pd x)) (table_index v)) v)
              (sym e)
            ∙ ground (arith, ne)))
      (λ other. elim (Bool-cases (dir_index v == dir_index virt)) [
        | inl near ↦ same_seen m m' pd v (ground (arith, ne)) (λ q. ground (arith, ne))
        | inr far ↦ same_seen m m' pd v (ground (arith, ne)) (λ q.
            ground (
              arith,
              ne,
              s.different (dir_index v) (dir_index virt) (omega arith) (omega arith) q p,
            ))
      ])

-- What an attempt to map `virt` does: if it succeeds, the addresses of that page read as those of
-- the frame; every other address, and every address if it fails, reads as before.
pub record Maps (m : Vm) (pd virt phys : ℕ) (r : Bool × Vm) : Type 0 where
  pub space : IsSpace r.1 pd
  pub reads :
      (v : ℕ)
      → v < 2 ^ 32
      → translate_in r.1 pd v
        ≡ (if r.0 && same_page v virt then phys + v % 4096 else translate_in m pd v)
  pub keeps : (g : ℕ) → bit_test m.pmm g ≡ true → bit_test r.1.pmm g ≡ true

refused-Maps : (m : Vm) (pd virt phys : ℕ) → IsSpace m pd → Maps m pd virt phys (false, m)
refused-Maps m pd virt phys s = record { space = s; reads = λ v k. refl; keeps = λ g t. t }

write-Maps :
    (m : Vm) (pd virt phys flags : ℕ) (r : Option ℕ × Vm)
    → virt < 2 ^ 32
    → phys % page_size ≡ 0
    → Opens m pd virt r
    → Maps m pd virt phys (write_entry virt phys flags r)
write-Maps m pd virt phys flags (none, m') h a o = record {
  space = o.space;
  reads = o.same;
  keeps = o.keeps;
}
write-Maps m pd virt phys flags (some t, m') h a o =
    let (p, f) = o.table t refl in
    subst (λ x. Maps m pd virt phys (write_entry virt phys flags (some x, m'))) f (written p)
  where
    written :
        is_present (m'.frames pd (dir_index virt)) ≡ true
        → Maps m pd virt phys
            (write_entry virt phys flags (some (frame_of (m'.frames pd (dir_index virt))), m'))
    written p =
        let w : ℕ = phys + set_present (flags % page_size) in
        let n : ℕ =
          (write_entry virt phys flags
            (some (frame_of (m'.frames pd (dir_index virt))), m')).1.mapped_pages in
        record {
          space =
              poked-IsSpace m' pd _ _ w n o.space (o.space.apart (dir_index virt) (omega arith) p);
          reads = λ v k.
              poked-translate m' pd virt w n v (IsSpace-Shape o.space) h k p
              ∙ ground (arith, o.same v k);
          keeps = o.keeps;
        }

-- On a space, `vmm_map_in` keeps the space well formed; if it succeeds, exactly the addresses of the
-- page at `virt` read as the frame at `phys`, and every other address reads as before, as does every
-- address if it fails.
pub map_in-Maps :
    (m : Vm) (pd virt phys flags : ℕ)
    → IsSpace m pd
    → virt < 2 ^ 32
    → Maps m pd virt phys (map_in m pd virt phys flags)
unfolding map_in
map_in-Maps m pd virt phys flags s h =
    if_elim (Maps m pd virt phys) (not (virt % page_size == 0) || not (phys % page_size == 0)) _ _
      (λ e. refused-Maps m pd virt phys s)
      (λ e.
        if_elim (Maps m pd virt phys) (is_user flags && not (user_page virt)) _ _
          (λ u. refused-Maps m pd virt phys s)
          (λ u.
            write-Maps m pd virt phys flags (table_for m pd virt true (is_user flags)) h
              (ground arith) (table_for-Opens m pd virt (is_user flags) s h)))
