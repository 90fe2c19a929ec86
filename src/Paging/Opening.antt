-- ===== src/Paging/Opening.antt =====
-- What `table_for` does to a space: it may add an empty table, and every address reads as before.
use sifar_os.Common.{
  ℕ, ◌+◌, ◌^◌, ◌<◌, ◌≡◌, ◌≢◌, refl, sym, ap, subst, Bool, true, false, Option, none, some, arith,
  inl, inr, ◌==◌, if◌then◌else◌, Bool-cases, if_elim, ◌∙◌,
}
use sifar_os.Pmm.{Pmm, bit_test, alloc_frame}
use sifar_os.Pmm.Inv
use sifar_os.Pmm.Alloc.{alloc_frame-IsValid}
use sifar_os.Paging.Tables.{
  Vm, is_present, frame_of, poke, wipe, dir_index, table_index, fresh_table, table_for,
  translate_in, set_user, store,
}
use sifar_os.Paging.Frames.{
  IsSpace, IsSpace-keep, IsSpace-extend, Fresh, alloc_frame-Fresh, alloc_frame_keeps, seen,
  translate_in-seen,
}

-- The directory has table `t` for the address, and every address reads as before.
pub record Opened (m : Vm) (pd virt t : ℕ) (m' : Vm) : Type 0 where
  pub space : IsSpace m' pd
  pub present : is_present (m'.frames pd (dir_index virt)) ≡ true
  pub frame : frame_of (m'.frames pd (dir_index virt)) ≡ t
  pub same : (v : ℕ) → v < 2 ^ 32 → translate_in m' pd v ≡ translate_in m pd v
  pub keeps : (g : ℕ) → bit_test m.pmm g ≡ true → bit_test m'.pmm g ≡ true

-- No two addresses are told apart by what the tables hold but by their entries.
pub same_seen :
    (m m' : Vm) (pd v : ℕ)
    → (is_present (m'.frames pd (dir_index v)) ≡ is_present (m.frames pd (dir_index v)))
    → (is_present (m.frames pd (dir_index v)) ≡ true
        → m'.frames (frame_of (m'.frames pd (dir_index v))) (table_index v)
          ≡ m.frames (frame_of (m.frames pd (dir_index v))) (table_index v))
    → translate_in m' pd v ≡ translate_in m pd v
same_seen m m' pd v p e = elim (Bool-cases (is_present (m.frames pd (dir_index v)))) [
  | inl there ↦ ground (arith, translate_in-seen m pd v, translate_in-seen m' pd v, e there)
  | inr away ↦ ground (arith, translate_in-seen m pd v, translate_in-seen m' pd v)
]

-- `pd[index] |= PTE_USER`
user-Opened :
    (m : Vm) (pd virt : ℕ)
    → IsSpace m pd
    → virt < 2 ^ 32
    → is_present (m.frames pd (dir_index virt)) ≡ true
    → Opened m pd virt
        (frame_of (m.frames pd (dir_index virt)))
        (store m pd (dir_index virt) (set_user (m.frames pd (dir_index virt))))
user-Opened m pd virt s h p = record {
  space = IsSpace-keep m m' pd s s.frames_valid (λ g x. x) (λ i k. entry i);
  present = ground arith;
  frame = ground arith;
  same = λ v k. same_seen m m' pd v (entry (dir_index v)).0 (λ q.
      ap (λ x. m'.frames x (table_index v)) (entry (dir_index v)).1
      ∙ ground (arith, s.apart (dir_index v) (omega arith) q));
  keeps = λ g t. t;
}
  where
    m' : Vm
    m' = store m pd (dir_index virt) (set_user (m.frames pd (dir_index virt)))

    entry :
        (i : ℕ)
        → (is_present (m'.frames pd i) ≡ is_present (m.frames pd i))
          × (frame_of (m'.frames pd i) ≡ frame_of (m.frames pd i))
    entry i = elim (Bool-cases (dir_index virt == i)) [
      | inl here ↦
          (let e : dir_index virt ≡ i = ground arith in
            subst
              (λ x.
                (is_present (m'.frames pd x) ≡ is_present (m.frames pd x))
                × (frame_of (m'.frames pd x) ≡ frame_of (m.frames pd x)))
              e (ground arith, ground arith))
      | inr other ↦ (ground arith, ground arith)
    ]

alloc_frame-Opened :
    (m : Vm) (pd virt addr : ℕ) (q : Pmm) (user : Bool)
    → IsSpace m pd
    → virt < 2 ^ 32
    → is_present (m.frames pd (dir_index virt)) ≡ false
    → Fresh m.pmm addr q
    → Opened m pd virt (frame_of addr) (record m {
      pmm = q;
      frames =
          poke
            (wipe m.frames (frame_of addr))
            pd
            (dir_index virt)
            (addr + 3 + (if user then 4 else 0));
    })
alloc_frame-Opened m pd virt addr q user s h p f = record {
  space =
      IsSpace-extend m m' pd (dir_index virt) f.number s f.valid f.taken f.was_free (number ∙ n)
        (λ j ne. other j ne);
  present = ground (arith, f.address);
  frame = number;
  same = λ v k. elim (Bool-cases (dir_index virt == dir_index v)) [
    | inl here ↦
        (let e : dir_index virt ≡ dir_index v = ground arith in
          translate_in-seen m' pd v
          ∙ (ap
                (λ x.
                  seen (m'.frames pd x) (m'.frames (frame_of (m'.frames pd x)) (table_index v)) v)
                (sym e)
              ∙ (empty (table_index v) v
                  ∙ sym (
                      translate_in-seen m pd v
                      ∙ (ap
                            (λ x.
                              seen (m.frames pd x)
                                (m.frames (frame_of (m.frames pd x)) (table_index v)) v)
                            (sym e)
                          ∙ ground arith)))))
    | inr there ↦
        (let e : m'.frames pd (dir_index v) ≡ m.frames pd (dir_index v) =
            other (dir_index v) (λ x. ground arith) in
          same_seen m m' pd v (ap is_present e) (λ r.
            ap (λ x. m'.frames (frame_of x) (table_index v)) e
            ∙ ground (
              arith,
              s.apart (dir_index v) (omega arith) r,
              not_new (dir_index v) (omega arith) r,
            )))
  ];
  keeps = λ g t. ground (arith, f.taken g, t);
}
  where
    m' : Vm
    m' = record m {
      pmm = q;
      frames =
          poke (wipe m.frames (frame_of addr)) pd (dir_index virt)
            (addr + 3 + (if user then 4 else 0));
    }

    n : frame_of addr ≡ f.number
    n = omega (arith, f.address)

    number : frame_of (m'.frames pd (dir_index virt)) ≡ frame_of addr
    number = ground (arith, f.address)

    clash : false ≡ true → ⊥
    clash e = cc

    dir_other : frame_of addr ≢ pd
    dir_other e = clash (sym f.was_free ∙ (ap (bit_test m.pmm) (sym n ∙ e) ∙ s.dir_taken))

    not_new :
        (i : ℕ)
        → i < 1024
        → is_present (m.frames pd i) ≡ true
        → frame_of (m.frames pd i) ≢ frame_of addr
    not_new i h p e =
        clash (sym f.was_free ∙ (ap (bit_test m.pmm) (sym (e ∙ n)) ∙ s.tables_taken i h p))

    other : (j : ℕ) → j ≢ dir_index virt → m'.frames pd j ≡ m.frames pd j
    other j ne = ground (arith, dir_other)

    empty :
        (k v : ℕ)
        → seen
            (m'.frames pd (dir_index virt))
            (m'.frames (frame_of (m'.frames pd (dir_index virt))) k)
            v
          ≡ 0
    empty k v =
        let z : m'.frames (frame_of addr) k ≡ 0 = ground (arith, dir_other) in
        ap (λ x. seen (m'.frames pd (dir_index virt)) (m'.frames x k) v) number ∙ ground (arith, z)

-- What `table_for` gives, a table or not: every address reads as before.
pub record Opens (m : Vm) (pd virt : ℕ) (r : Option ℕ × Vm) : Type 0 where
  pub space : IsSpace r.1 pd
  pub same : (v : ℕ) → v < 2 ^ 32 → translate_in r.1 pd v ≡ translate_in m pd v
  pub table :
      (t : ℕ)
      → r.0 ≡ some t
      → (is_present (r.1.frames pd (dir_index virt)) ≡ true)
        × (frame_of (r.1.frames pd (dir_index virt)) ≡ t)
  pub keeps : (g : ℕ) → bit_test m.pmm g ≡ true → bit_test r.1.pmm g ≡ true

Opened-Opens :
    (m : Vm) (pd virt t : ℕ) (m' : Vm) → Opened m pd virt t m' → Opens m pd virt (some t, m')
Opened-Opens m pd virt t m' o = record {
  space = o.space;
  same = o.same;
  table = λ t' e. (o.present, o.frame ∙ cc);
  keeps = o.keeps;
}

unused-Opened :
    (m : Vm) (pd virt : ℕ)
    → IsSpace m pd
    → is_present (m.frames pd (dir_index virt)) ≡ true
    → Opened m pd virt (frame_of (m.frames pd (dir_index virt))) m
unused-Opened m pd virt s p = record {
  space = s;
  present = p;
  frame = refl;
  same = λ v k. refl;
  keeps = λ g t. t;
}

none-Opens :
    (m : Vm) (pd virt : ℕ) (q : Pmm)
    → IsSpace (record m { pmm = q }) pd
    → ((g : ℕ) → bit_test m.pmm g ≡ true → bit_test q g ≡ true)
    → Opens m pd virt (none, record m { pmm = q })
none-Opens m pd virt q s k = record {
  space = s;
  same = λ v k. same_seen m (record m { pmm = q }) pd v refl (λ e. refl);
  table = λ t e. absurd (not_some t e);
  keeps = k;
}
  where
    not_some : (t : ℕ) → none ≡ some t → ⊥
    not_some t e = cc

fresh_table-Opens :
    (m : Vm) (pd virt : ℕ) (user : Bool) (r : ℕ × Pmm)
    → IsSpace m pd
    → virt < 2 ^ 32
    → is_present (m.frames pd (dir_index virt)) ≡ false
    → Inv.IsValid r.1
    → ((g : ℕ) → bit_test m.pmm g ≡ true → bit_test r.1 g ≡ true)
    → (r.0 ≢ 0 → Fresh m.pmm r.0 r.1)
    → Opens m pd virt (fresh_table m pd (dir_index virt) user r)
fresh_table-Opens m pd virt user (addr, q) s h p v keeps fresh =
    if_elim (Opens m pd virt) (addr == 0) _ _
      (λ e.
        none-Opens m pd virt q
          (IsSpace-keep m (record m { pmm = q }) pd s v keeps (λ i k. (refl, refl))) keeps)
      (λ e.
        Opened-Opens m pd virt (frame_of addr) _
          (alloc_frame-Opened m pd virt addr q user s h p (fresh (λ z. ground arith))))

-- `table_for` with `create` gives a table or leaves the space as it is.
pub table_for-Opens :
    (m : Vm) (pd virt : ℕ) (user : Bool)
    → IsSpace m pd
    → virt < 2 ^ 32
    → Opens m pd virt (table_for m pd virt true user)
unfolding table_for
table_for-Opens m pd virt user s h =
    let e : ℕ = m.frames pd (dir_index virt) in
    if_elim (Opens m pd virt) (is_present e) _ _
      (λ p. Opened-Opens m pd virt (frame_of e) _ (
        if_elim (Opened m pd virt (frame_of e)) user _ _ (λ u. user-Opened m pd virt s h p)
          (λ u. unused-Opened m pd virt s p)))
      (λ p.
        fresh_table-Opens m pd virt user (alloc_frame m.pmm) s h p
          (alloc_frame-IsValid m.pmm s.frames_valid) (alloc_frame_keeps m.pmm s.frames_valid)
          (alloc_frame-Fresh m.pmm s.frames_valid))
