-- ===== src/Paging/Shared.antt =====
-- The kernel's half of every space: `vmm_space_create` shares it, `vmm_map` and `vmm_unmap` keep it
-- shared.
use sifar_os.Common.{
  ℕ, ◌+◌, ◌%◌, ◌^◌, ◌<◌, ◌≡◌, ◌≢◌, refl, sym, ap, subst, Bool, true, false, ◌&&◌, ◌||◌, not, Option,
  none, some, arith, inl, inr, ◌==◌, if◌then◌else◌, Bool-cases, if_elim, ◌∙◌,
}
use sifar_os.Pmm.{Pmm, bit_test, alloc_frame}
use sifar_os.Paging.Tables.{
  Vm, page_size, dir_index, table_index, is_present, is_user, set_present, frame_of, align_down,
  is_kernel_pde, table_for, table_at, map_in, unmap_in, clear_entry, write_entry, user_page,
  translate_in,
}
use sifar_os.Paging.Spaces.{
  space_create, new_space, shared_dir, map_kernel, unmap_kernel, kernel_flags,
}
use sifar_os.Paging.Frames.{IsSpace, Shape, Fresh, alloc_frame-Fresh, seen, translate_in-seen}
use sifar_os.Paging.Mapping.{same_page, poked, poked-translate}

-- The entries for the kernel's half are those of the kernel's directory.
unfoldable pub Shares : Vm → ℕ → ℕ → Type 0
Shares m kernel pd = (i : ℕ) → i < 1024 → is_kernel_pde i ≡ true → m.frames pd i ≡ m.frames kernel i

-- In a space that shares the kernel's half, an address of that half reads as it does in the kernel.
pub translate_in-Shares :
    (m : Vm) (kernel pd v : ℕ)
    → Shares m kernel pd
    → v < 2 ^ 32
    → is_kernel_pde (dir_index v) ≡ true
    → translate_in m pd v ≡ translate_in m kernel v
unfolding Shares
translate_in-Shares m kernel pd v s h k =
    translate_in-seen m pd v
    ∙ (ap (λ x. seen x (m.frames (frame_of x) (table_index v)) v) (s (dir_index v) (omega arith) k)
        ∙ sym (translate_in-seen m kernel v))

-- A store to one of the shared tables is in neither directory.
poked-Shares :
    (m : Vm) (kernel pd i j w n : ℕ)
    → Shares m kernel pd
    → Shape m kernel
    → Shape m pd
    → i < 1024
    → is_kernel_pde i ≡ true
    → is_present (m.frames kernel i) ≡ true
    → Shares (poked m (frame_of (m.frames kernel i)) j w n) kernel pd
unfolding Shares
poked-Shares m kernel pd i j w n s a b h k p =
    let ne : frame_of (m.frames kernel i) ≢ kernel = a.away i h p in
    let ne' : frame_of (m.frames kernel i) ≢ pd =
      subst (λ x. frame_of x ≢ pd) (s i h k)
        (b.away i h (subst (λ x. is_present x ≡ true) (sym (s i h k)) p)) in
    λ g u l. ground (arith, ne, ne', s g u l)

table_for_there :
    (m : Vm) (pd virt : ℕ) (user : Bool)
    → is_present (m.frames pd (dir_index virt)) ≡ true
    → user ≡ false
    → table_for m pd virt true user ≡ (some (frame_of (m.frames pd (dir_index virt))), m)
unfolding table_for
table_for_there m pd virt user p e = ground arith

-- What `vmm_map` of a page of the kernel's half comes to in a space that shares that half: an attempt
-- succeeds exactly if both addresses are those of a page and a frame; then the addresses of the page
-- read as the frame, in the kernel and in the space, and every other address reads as before in
-- either; and the half is still shared.
pub record MapsBoth (m : Vm) (kernel pd virt phys : ℕ) (r : Bool × Vm) : Type 0 where
  pub result : r.0 ≡ (virt % page_size == 0 && phys % page_size == 0)
  pub shares : Shares r.1 kernel pd
  pub in_kernel :
      (v : ℕ)
      → v < 2 ^ 32
      → translate_in r.1 kernel v
        ≡ (if r.0 && same_page v virt then phys + v % 4096 else translate_in m kernel v)
  pub in_space :
      (v : ℕ)
      → v < 2 ^ 32
      → translate_in r.1 pd v
        ≡ (if r.0 && same_page v virt then phys + v % 4096 else translate_in m pd v)

written-MapsBoth :
    (m : Vm) (kernel pd virt phys flags n : ℕ)
    → Shares m kernel pd
    → Shape m kernel
    → Shape m pd
    → virt < 2 ^ 32
    → is_kernel_pde (dir_index virt) ≡ true
    → is_present (m.frames kernel (dir_index virt)) ≡ true
    → virt % page_size ≡ 0
    → phys % page_size ≡ 0
    → MapsBoth m kernel pd virt phys (
      true,
      poked m
          (frame_of (m.frames kernel (dir_index virt)))
          (table_index virt)
          (phys + set_present (flags % page_size))
          n,
    )
unfolding Shares
written-MapsBoth m kernel pd virt phys flags n s a b h k p c d =
    let w : ℕ = phys + set_present (flags % page_size) in
    let e : m.frames pd (dir_index virt) ≡ m.frames kernel (dir_index virt) =
      s (dir_index virt) (omega arith) k in
    let q : is_present (m.frames pd (dir_index virt)) ≡ true =
      subst (λ x. is_present x ≡ true) (sym e) p in
    record {
      result = ground arith;
      shares = poked-Shares m kernel pd (dir_index virt) _ w n s a b (omega arith) k p;
      in_kernel = λ v l. poked-translate m kernel virt w n v a h l p ∙ ground arith;
      in_space = λ v l.
          ap (λ x. translate_in (poked m (frame_of x) (table_index virt) w n) pd v) (sym e)
          ∙ (poked-translate m pd virt w n v b h l q ∙ ground arith);
    }

-- `vmm_map` of a page of the kernel's half whose table exists, where a space shares that half and the
-- tables and directories of both are different frames, succeeds exactly if both addresses are
-- aligned to pages; then the page reads as the frame in the kernel and in the space, every other
-- address reads as before in both, as does every address if it fails, and the half is still shared.
pub map_kernel-MapsBoth :
    (m : Vm) (kernel pd virt phys flags : ℕ)
    → Shares m kernel pd
    → Shape m kernel
    → Shape m pd
    → virt < 2 ^ 32
    → is_kernel_pde (dir_index virt) ≡ true
    → is_present (m.frames kernel (dir_index virt)) ≡ true
    → MapsBoth m kernel pd virt phys (map_kernel m kernel virt phys flags)
unfolding map_kernel map_in
map_kernel-MapsBoth m kernel pd virt phys flags s a b h k p =
    if_elim (MapsBoth m kernel pd virt phys)
      (not (virt % page_size == 0) || not (phys % page_size == 0)) _ _
      (λ e. record {
        result = ground arith;
        shares = s;
        in_kernel = λ v l. refl;
        in_space = λ v l. refl;
      })
      (λ e.
        if_elim (MapsBoth m kernel pd virt phys)
          (is_user (kernel_flags flags) && not (user_page virt)) _ _ (λ u. absurd (ground arith))
          (λ u.
            subst
              (λ t. MapsBoth m kernel pd virt phys (write_entry virt phys (kernel_flags flags) t))
              (sym (table_for_there m kernel virt (is_user (kernel_flags flags)) p (ground arith)))
              (written-MapsBoth m kernel pd virt phys (kernel_flags flags) _ s a b h k p
                (ground arith) (ground arith))))

-- `vmm_unmap` keeps the kernel's half shared.
pub unmap_kernel-Shares :
    (m : Vm) (kernel pd virt : ℕ)
    → Shares m kernel pd
    → Shape m kernel
    → Shape m pd
    → virt < 2 ^ 32
    → is_kernel_pde (dir_index virt) ≡ true
    → Shares (unmap_kernel m kernel virt) kernel pd
unfolding unmap_kernel unmap_in table_at
unmap_kernel-Shares m kernel pd virt s a b h k =
    let d : dir_index (align_down virt) ≡ dir_index virt = omega arith in
    let e : ℕ = m.frames kernel (dir_index (align_down virt)) in
    if_elim (λ t. Shares (clear_entry m (align_down virt) t) kernel pd) (is_present e) _ _
      (λ p.
        if_elim (λ x. Shares x kernel pd)
          (is_present (m.frames (frame_of e) (table_index (align_down virt)))) _ _
          (λ q.
            poked-Shares m kernel pd (dir_index (align_down virt)) _ 0 _ s a b (omega arith)
              (subst (λ x. is_kernel_pde x ≡ true) (sym d) k) p)
          (λ q. s))
      (λ p. s)

-- What the directory of a new space makes of the addresses.
abbrev pub Starts : Vm → ℕ → ℕ → Vm → Type 0
Starts m kernel pd m' =
    Shares m' kernel pd
    × ((v : ℕ)
        → v < 2 ^ 32
        → translate_in m' pd v
          ≡ (if is_kernel_pde (dir_index v) then translate_in m kernel v else 0))

new_space-Starts :
    (m : Vm) (kernel addr : ℕ) (q : Pmm)
    → IsSpace m kernel
    → Fresh m.pmm addr q
    → Starts m kernel
        (frame_of addr)
        (record m { pmm = q; frames = shared_dir m.frames kernel (frame_of addr) })
unfolding Shares
new_space-Starts m kernel addr q s f =
    let ne : kernel ≢ frame_of addr = old kernel s.dir_taken in
    let m' : Vm = record m { pmm = q; frames = shared_dir m.frames kernel (frame_of addr) } in
    (
      λ i h k. ground (arith, ne),
      λ v h.
          translate_in-seen m' (frame_of addr) v ∙ elim (Bool-cases (is_kernel_pde (dir_index v))) [
            | inl k ↦ elim (Bool-cases (is_present (m.frames kernel (dir_index v)))) [
              | inl p ↦ ground (
                arith,
                translate_in-seen m kernel v,
                old (frame_of (m.frames kernel (dir_index v)))
                    (s.tables_taken (dir_index v) (omega arith) p),
              )
              | inr p ↦ ground (arith, translate_in-seen m kernel v)
            ]
            | inr k ↦ ground arith
          ],
    )
  where
    clash : false ≡ true → ⊥
    clash e = cc

    old : (g : ℕ) → bit_test m.pmm g ≡ true → g ≢ frame_of addr
    old g t e =
        clash (sym f.was_free ∙ (ap (bit_test m.pmm) (sym (e ∙ omega (arith, f.address))) ∙ t))

-- A space that `vmm_space_create` makes shares the kernel's half and maps nothing of the user's half.
pub space_create-Starts :
    (m : Vm) (kernel pd : ℕ)
    → IsSpace m kernel
    → (space_create m kernel).0 ≡ some pd
    → Starts m kernel pd (space_create m kernel).1
unfolding space_create
space_create-Starts m kernel pd s e =
    at (alloc_frame m.pmm) (alloc_frame-Fresh m.pmm s.frames_valid) e
  where
    clash : none ≡ some pd → ⊥
    clash e = cc

    same : {f : ℕ} → some f ≡ some pd → f ≡ pd
    same e = cc

    at :
        (r : ℕ × Pmm)
        → (r.0 ≢ 0 → Fresh m.pmm r.0 r.1)
        → (new_space m kernel r).0 ≡ some pd
        → Starts m kernel pd (new_space m kernel r).1
    at (addr, q) fresh =
        if_elim (λ (r : Option ℕ × Vm). r.0 ≡ some pd → Starts m kernel pd r.1) (addr == 0) _ _
          (λ z c. absurd (clash c))
          (λ z c.
            let d : frame_of addr ≡ pd = same c in
            subst
              (λ x.
                Starts m kernel x
                  (record m { pmm = q; frames = shared_dir m.frames kernel (frame_of addr) }))
              d (new_space-Starts m kernel addr q s (fresh (λ k. ground arith))))
