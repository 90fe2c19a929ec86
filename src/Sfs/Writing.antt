-- ===== src/Sfs/Writing.antt =====
-- The loop of `sfs_file_write`: the bytes that it writes, and where it stops.
use sifar_os.Common.{
  ℕ, zero, suc, ◌+◌, ◌-◌, ◌/◌, ◌%◌, ◌<◌, ◌≤◌, ◌≡◌, ◌≢◌, refl, sym, ap, ◌∙◌, subst, Bool, true,
  false, ◌&&◌, ◌||◌, not, List, [], ◌∷◌, if◌then◌else◌, leb, ltb, ◌==◌, arith, Bool-cases, if_elim,
  inl, inr, min, length, drop, get_or, length-drop,
}
use sifar_os.Sfs.Disk.{block_size, Fs, Inode}
use sifar_os.Sfs.Files.{Located, Written, patch, block_for, write_loop}
use sifar_os.Sfs.Layout.{in_table, is_meta, table_is_meta}
use sifar_os.Sfs.Mapped.{located, IsFile, Gains}
use sifar_os.Sfs.Content.{
  byte_at, Gains-byte_at, overwritten, overwritten-IsFile, overwritten-byte_at,
}
use sifar_os.Sfs.Tables.{write_block_works}
use sifar_os.Sfs.Growth.{block_for-Gains}

-- What the loop makes of a file from position `pos` on with `bytes` to write, after `before` bytes.
-- Where it stops short, no block was to be had for the next byte.
pub record Writes (s : Fs) (inode : Inode) (pos : ℕ) (bytes : List ℕ) (before : ℕ) (r : Written)
    : Type 0 where
  pub file : IsFile r.fs r.inode
  pub at_least : before ≤ r.written
  pub at_most : r.written ≤ before + length bytes
  pub content :
      (p : ℕ)
      → byte_at r.fs r.inode p ≡ (
          if leb pos p && ltb p (pos + (r.written - before))
          then get_or bytes (p - pos) 0
          else byte_at s inode p)
  pub stops :
      r.written ≢ before + length bytes
      → located r.fs r.inode ((pos + (r.written - before)) / block_size) ≡ 0
  pub size : r.inode.size ≡ inode.size
  pub table : (g k : ℕ) → in_table s.super.geometry g ≡ true → r.fs.blocks g k ≡ s.blocks g k
  pub geometry : r.fs.super.geometry ≡ s.super.geometry

get_or-drop : (n i : ℕ) (xs : List ℕ) → get_or (drop n xs) i 0 ≡ get_or xs (n + i) 0
get_or-drop zero i xs = ap (λ k. get_or xs k 0) (omega arith)
get_or-drop (suc n) i [] = refl
get_or-drop (suc n) i (x ∷ xs) =
    get_or-drop n i xs
    ∙ (let e : suc (n + i) ≡ suc n + i = omega arith in ap (λ k. get_or (x ∷ xs) k 0) e)

-- The end of the bytes.
done-Writes :
    (s : Fs) (inode : Inode) (pos : ℕ) (bytes : List ℕ) (before : ℕ) (changed : Bool)
    → IsFile s inode
    → length bytes ≡ 0
    → Writes s inode pos bytes before
        (record { fs = s; inode = inode; written = before; changed = changed })
done-Writes s inode pos bytes before changed f e = record {
  file = f;
  at_least = omega arith;
  at_most = omega arith;
  content = λ p. ground arith;
  stops = λ n. absurd (n (omega (arith, e)));
  size = refl;
  table = λ g k l. refl;
  geometry = refl;
}

-- A round for which there is no block.
full-Writes :
    (s : Fs) (inode : Inode) (pos : ℕ) (bytes : List ℕ) (before : ℕ) (changed : Bool) (l : Located)
    → Gains s inode (pos / block_size) l
    → l.block ≡ 0
    → Writes s inode pos bytes before
        (record { fs = l.fs; inode = l.inode; written = before; changed = changed })
full-Writes s inode pos bytes before changed l g e = record {
  file = g.file;
  at_least = omega arith;
  at_most = omega arith;
  content = λ p. Gains-byte_at s inode (pos / block_size) l p g ∙ ground arith;
  stops = λ n.
      (let q : (pos + (before - before)) / block_size ≡ pos / block_size = omega arith in
        ap (located l.fs l.inode) q ∙ (g.here ∙ e));
  size = g.size;
  table = g.table;
  geometry = g.geometry;
}

-- The state after one round that writes.
abbrev next_fs : Located → ℕ → ℕ → List ℕ → Fs
next_fs l pos chunk bytes =
    overwritten l.fs l.block (patch (l.fs.blocks l.block) (pos % block_size) chunk bytes)

pub here-byte_at :
    (s : Fs) (inode : Inode) (p b : ℕ)
    → located s inode (p / block_size) ≡ b
    → b ≢ 0
    → byte_at s inode p ≡ s.blocks b (p % block_size)
unfolding byte_at
here-byte_at s inode p b e n =
    ap (λ x. if x == 0 then 0 else s.blocks x (p % block_size)) e ∙ ground arith

-- The bytes of the block that was written, where `old` is what it held.
patch_at :
    (bytes : List ℕ) (b : ℕ → ℕ) (pos chunk p old : ℕ)
    → p / 4096 ≡ pos / 4096
    → pos % 4096 + chunk ≤ 4096
    → old ≡ b (p % 4096)
    → patch b (pos % 4096) chunk bytes (p % 4096)
      ≡ (if leb pos p && ltb p (pos + chunk) then get_or bytes (p - pos) 0 else old)
patch_at bytes b pos chunk p old e h q =
    let d : p % 4096 - pos % 4096 ≡ p - pos = omega arith in
    ap
      (λ k.
        if leb (pos % 4096) (p % 4096) && ltb (p % 4096) (pos % 4096 + chunk)
        then get_or bytes k 0
        else b (p % 4096))
      d
    ∙ ground (arith, q)

round-byte_at :
    (s : Fs) (inode : Inode) (pos chunk p : ℕ) (bytes : List ℕ) (l : Located)
    → Gains s inode (pos / block_size) l
    → l.block ≢ 0
    → pos % block_size + chunk ≤ block_size
    → byte_at (next_fs l pos chunk bytes) l.inode p
      ≡ (if leb pos p && ltb p (pos + chunk) then get_or bytes (p - pos) 0 else byte_at s inode p)
round-byte_at s inode pos chunk p bytes l g n h =
    let new : ℕ → ℕ = patch (l.fs.blocks l.block) (pos % block_size) chunk bytes in
    let old = Gains-byte_at s inode (pos / block_size) l p g in
    subst
      (λ b. byte_at (overwritten l.fs b new) l.inode p ≡ (
        if p / block_size == pos / block_size
        then new (p % block_size)
        else byte_at l.fs l.inode p))
      g.here
      (overwritten-byte_at l.fs l.inode (pos / block_size) p new g.file
        (subst (λ x. x ≢ 0) (sym g.here) n))
    ∙ elim (Bool-cases (p / block_size == pos / block_size)) [
      | inl here ↦
          (let e : p / block_size ≡ pos / block_size = ground arith in
            let q : byte_at s inode p ≡ l.fs.blocks l.block (p % block_size) =
              sym old
              ∙ here-byte_at l.fs l.inode p l.block (ap (located l.fs l.inode) e ∙ g.here) n in
            ap (λ c. if c then new (p % block_size) else byte_at l.fs l.inode p) here
            ∙ patch_at bytes (l.fs.blocks l.block) pos chunk p (byte_at s inode p) e h q)
      | inr away ↦
          (let e : (leb pos p && ltb p (pos + chunk)) ≡ false = ground arith in
            ap (λ c. if c then new (p % block_size) else byte_at l.fs l.inode p) away
            ∙ (old ∙ ap (λ c. if c then get_or bytes (p - pos) 0 else byte_at s inode p) (sym e)))
    ]

-- A round that writes, and those after it.
round-Writes :
    (s : Fs) (inode : Inode) (pos chunk before : ℕ) (bytes : List ℕ) (l : Located) (r : Written)
    → Gains s inode (pos / block_size) l
    → l.block ≢ 0
    → pos % block_size + chunk ≤ block_size
    → chunk ≤ length bytes
    → Writes (next_fs l pos chunk bytes) l.inode (pos + chunk) (drop chunk bytes) (before + chunk) r
    → Writes s inode pos bytes before r
round-Writes s inode pos chunk before bytes l r g n h k w = record {
  file = w.file;
  at_least = omega (arith, w.at_least);
  at_most = omega (arith, w.at_most, length-drop chunk bytes);
  content = λ p.
      w.content p
      ∙ join p _ _ _ _ (round-byte_at s inode pos chunk p bytes l g n h) (λ e. later p e);
  stops = λ m.
      (let e : (pos + chunk + (r.written - (before + chunk))) / block_size
            ≡ (pos + (r.written - before)) / block_size =
          omega (arith, w.at_least) in
        ap (located r.fs r.inode) (sym e)
        ∙ w.stops (λ x. m (omega (arith, x, k, length-drop chunk bytes))));
  size = w.size ∙ g.size;
  table = λ h i d.
      w.table h i (ap (λ x. in_table x h) g.geometry ∙ d)
      ∙ ground (arith, g.table h i d, outside h d);
  geometry = w.geometry ∙ g.geometry;
}
  where
    clash : false ≡ true → ⊥
    clash e = cc

    -- The block of the round is none of the table of inodes.
    outside : (h : ℕ) → in_table s.super.geometry h ≡ true → h ≢ l.block
    outside h d e =
        let o : located l.fs l.inode (pos / block_size) ≡ h = g.here ∙ sym e in
        let m = g.file.plain (pos / block_size) (subst (λ x. x ≢ 0) (sym g.here) n) in
        clash (
          sym m
          ∙ (ap (is_meta l.fs.super.geometry) o
              ∙ (ap (λ x. is_meta x h) g.geometry ∙ table_is_meta s.super.geometry h d)))

    later :
        (p : ℕ)
        → leb (pos + chunk) p ≡ true
        → get_or (drop chunk bytes) (p - (pos + chunk)) 0 ≡ get_or bytes (p - pos) 0
    later p e =
        let q : chunk + (p - (pos + chunk)) ≡ p - pos = ground arith in
        get_or-drop chunk (p - (pos + chunk)) bytes ∙ ap (λ i. get_or bytes i 0) q

    join :
        (p x y z u : ℕ)
        → y ≡ (if leb pos p && ltb p (pos + chunk) then z else u)
        → (leb (pos + chunk) p ≡ true → x ≡ z)
        → (if leb (pos + chunk) p && ltb p (pos + chunk + (r.written - (before + chunk)))
            then x
            else y)
          ≡ (if leb pos p && ltb p (pos + (r.written - before)) then z else u)
    join p x y z u e f = ground (arith, w.at_least, f)

-- `sfs_file_write`'s loop, with as many rounds as there are bytes, writes the bytes from its position
-- on as far as there are blocks to be had, and changes no other byte.
pub write_loop-Writes :
    (n : ℕ) (s : Fs) (inode : Inode) (pos : ℕ) (bytes : List ℕ) (before : ℕ) (changed : Bool)
    → IsFile s inode
    → length bytes ≤ n
    → Writes s inode pos bytes before (write_loop n s inode pos bytes before changed)
unfolding write_loop
write_loop-Writes zero s inode pos bytes before changed f h =
    done-Writes s inode pos bytes before changed f (omega arith)
write_loop-Writes (suc n) s inode pos bytes before changed f h =
    let l : Located = block_for s inode (pos / block_size) true in
    let g : Gains s inode (pos / block_size) l = block_for-Gains s inode (pos / block_size) f in
    let chunk : ℕ = min (block_size - pos % block_size) (length bytes) in
    if_elim (Writes s inode pos bytes before) (length bytes == 0) _ _
      (λ e. done-Writes s inode pos bytes before changed f (ground arith))
      (λ e.
        if_elim (Writes s inode pos bytes before) (l.block == 0) _ _
          (λ z. full-Writes s inode pos bytes before _ l g (ground arith))
          (λ z.
            let m : l.block ≢ 0 = λ q. ground arith in
            if_elim (Writes s inode pos bytes before) (not (l.fs.works l.block)) _ _
              (λ d. absurd (fails (l.fs.works l.block) (g.file.works l.block) d))
              (λ d.
                round-Writes s inode pos chunk before bytes l _ g m (omega arith) (omega arith) (
                  subst
                    (λ x.
                      Writes (next_fs l pos chunk bytes) l.inode (pos + chunk) (drop chunk bytes)
                        (before + chunk)
                        (write_loop n x l.inode (pos + chunk) (drop chunk bytes) (before + chunk)
                          (changed || l.changed)))
                    (sym (
                      write_block_works l.fs l.block
                        (patch (l.fs.blocks l.block) (pos % block_size) chunk bytes)
                        (g.file.works l.block)))
                    (write_loop-Writes n (next_fs l pos chunk bytes) l.inode (pos + chunk)
                      (drop chunk bytes) (before + chunk) (changed || l.changed)
                      (overwritten-IsFile l.fs l.inode l.block _ g.file (λ q.
                        subst (λ x. x ≢ l.inode.indirect) g.here
                          (g.file.apart q (pos / block_size))))
                      (omega (arith, length-drop chunk bytes, positive (ground arith))))))))
  where
    fails : (b : Bool) → b ≡ true → not b ≡ true → ⊥
    fails true e d = cc
    fails false e d = cc

    positive : length bytes ≢ 0 → 0 < length bytes
    positive n = omega arith
