-- ===== src/Sfs/Reading.antt =====
-- `sfs_file_read`: the bytes that it copies.
use sifar_os.Common.{
  ℕ, zero, suc, ◌+◌, ◌-◌, ◌/◌, ◌%◌, ◌^◌, ◌<◌, ◌≤◌, ◌≡◌, ◌≢◌, refl, sym, ap, ◌∙◌, subst, Bool, true,
  false, ◌&&◌, not, Option, none, some, List, [], ◌∷◌, ◌++◌, if◌then◌else◌, leb, ltb, ◌==◌, arith,
  Bool-cases, if_elim, inl, inr, min, length, get_or, length-append, replicate, length-replicate,
}
use sifar_os.Sfs.Disk.{
  block_size, pointers, direct_count, word_at, Fs, Inode, is_inode, inode_read, stored_inode,
}
use sifar_os.Sfs.Files.{Located, block_for, indirect_block, read_loop, block_bytes, file_read}
use sifar_os.Sfs.Mapped.{located, IsFile}
use sifar_os.Sfs.Growth.{located_past, located_entry, located_direct}
use sifar_os.Sfs.Content.{byte_at}
use sifar_os.Sfs.Writing.{here-byte_at}

clash : true ≡ false → ⊥
clash e = cc

off : (b : Bool) → b && false ≡ true → ⊥
off true e = cc
off false e = cc

fails : (b : Bool) → b ≡ true → not b ≡ true → ⊥
fails true e d = cc
fails false e d = cc

-- `block_for` without `allocate` reads the map.
block_for-located :
    (s : Fs) (inode : Inode) (index : ℕ)
    → ((b : ℕ) → s.works b ≡ true)
    → (block_for s inode index false).block ≡ located s inode index
unfolding block_for
block_for-located s inode index w =
    if_elim (λ (l : Located). l.block ≡ located s inode index) (ltb index direct_count) _ _
      (λ low.
        if_elim (λ (l : Located). l.block ≡ located s inode index)
          (inode.direct index == 0 && false) _ _ (λ e. absurd (off _ e))
          (λ e. sym (located_direct s inode index low)))
      (λ high.
        let e : index - 12 + 12 ≡ index = ground arith in
        subst (λ i. (indirect_block s inode (index - 12) false).block ≡ located s inode i) e
          (past (index - 12)))
  where
    past : (idx : ℕ) → (indirect_block s inode idx false).block ≡ located s inode (idx + 12)
    past idx =
        if_elim (λ (l : Located). l.block ≡ located s inode (idx + 12)) (leb pointers idx) _ _
          (λ e. sym (located_past s inode idx (ground arith)))
          (λ e.
            if_elim (λ (l : Located). l.block ≡ located s inode (idx + 12))
              (not (inode.indirect == 0)) _ _
              (λ n.
                if_elim (λ (l : Located). l.block ≡ located s inode (idx + 12))
                  (not (s.works inode.indirect)) _ _ (λ d. absurd (fails _ (w inode.indirect) d))
                  (λ d.
                    if_elim (λ (l : Located). l.block ≡ located s inode (idx + 12))
                      ((word_at (s.blocks inode.indirect) idx == 0) && false) _ _
                      (λ q. absurd (off _ q))
                      (λ q. sym (located_entry s inode idx (λ z. ground arith) (ground arith)))))
              (λ n. sym (located_past s inode idx (ground arith))))

length-block_bytes : (b : ℕ → ℕ) (at n : ℕ) → length (block_bytes b at n) ≡ n
unfolding block_bytes
length-block_bytes b at zero = refl
length-block_bytes b at (suc n) = ap suc (length-block_bytes b (at + 1) n)

get_or-block_bytes : (b : ℕ → ℕ) (at n i : ℕ) → i < n → get_or (block_bytes b at n) i 0 ≡ b (at + i)
unfolding block_bytes
get_or-block_bytes b at zero i h = absurd (omega arith)
get_or-block_bytes b at (suc n) zero h = ap b (omega arith)
get_or-block_bytes b at (suc n) (suc i) h =
    let e : at + 1 + i ≡ at + suc i = omega arith in
    get_or-block_bytes b (at + 1) n i (omega arith) ∙ ap b e

get_or-append :
    (xs ys : List ℕ) (i : ℕ)
    → get_or (xs ++ ys) i 0
      ≡ (if ltb i (length xs) then get_or xs i 0 else get_or ys (i - length xs) 0)
get_or-append [] ys i =
    (let e : i ≡ i - 0 = omega arith in ap (λ k. get_or ys k 0) e) ∙ ground arith
get_or-append (x ∷ xs) ys zero = ground arith
get_or-append (x ∷ xs) ys (suc i) =
    get_or-append xs ys i
    ∙ (let e : i - length xs ≡ suc i - suc (length xs) = omega arith in
        ap (λ k. if ltb i (length xs) then get_or xs i 0 else get_or ys k 0) e ∙ ground arith)

get_or-zeros : (n i : ℕ) → get_or {A = ℕ} (replicate n 0) i 0 ≡ 0
get_or-zeros zero i = refl
get_or-zeros (suc n) zero = refl
get_or-zeros (suc n) (suc i) = get_or-zeros n i

-- A row of bytes is `count` bytes of a file from `pos` on.
pub record Reads (s : Fs) (inode : Inode) (pos count : ℕ) (out : List ℕ) : Type 0 where
  pub all : length out ≡ count
  pub bytes : (i : ℕ) → i < count → get_or out i 0 ≡ byte_at s inode (pos + i)

-- The bytes of one round and those of the rounds after it.
Reads-append :
    (s : Fs) (inode : Inode) (pos chunk count : ℕ) (xs ys : List ℕ)
    → chunk ≤ count
    → Reads s inode pos chunk xs
    → Reads s inode (pos + chunk) (count - chunk) ys
    → Reads s inode pos count (xs ++ ys)
Reads-append s inode pos chunk count xs ys h a b = record {
  all = omega (arith, length-append xs ys, a.all, b.all);
  bytes = λ i k. get_or-append xs ys i ∙ elim (Bool-cases (ltb i chunk)) [
    | inl first ↦ ground (arith, a.all, a.bytes i)
    | inr later ↦
        (let e : i - length xs ≡ i - chunk = omega (arith, a.all) in
          let q : pos + chunk + (i - chunk) ≡ pos + i = ground arith in
          let w : get_or ys (i - length xs) 0 ≡ byte_at s inode (pos + i) =
            ap (λ k. get_or ys k 0) e
            ∙ (b.bytes (i - chunk) (ground arith) ∙ ap (byte_at s inode) q) in
          ground (arith, w, a.all))
  ];
}

chunk-Reads :
    (s : Fs) (inode : Inode) (pos chunk : ℕ)
    → pos % block_size + chunk ≤ block_size
    → 0 < chunk
    → (located s inode (pos / block_size) ≡ 0 → Reads s inode pos chunk (replicate chunk 0))
      × (located s inode (pos / block_size) ≢ 0
          → Reads s inode pos chunk (
              block_bytes (s.blocks (located s inode (pos / block_size))) (pos % block_size) chunk))
unfolding byte_at
chunk-Reads s inode pos chunk h k = (
  λ e. record {
    all = length-replicate chunk 0;
    bytes = λ i l. get_or-zeros chunk i ∙ ground (arith, same i l, e);
  },
  λ n. record {
    all = length-block_bytes _ (pos % block_size) chunk;
    bytes = λ i l. get_or-block_bytes _ (pos % block_size) chunk i l ∙ there i l n;
  },
)
  where
    same :
        (i : ℕ)
        → i < chunk
        → located s inode ((pos + i) / block_size) ≡ located s inode (pos / block_size)
    same i l =
        let e : (pos + i) / block_size ≡ pos / block_size = omega arith in ap (located s inode) e

    there :
        (i : ℕ)
        → i < chunk
        → located s inode (pos / block_size) ≢ 0
        → s.blocks (located s inode (pos / block_size)) (pos % block_size + i)
          ≡ byte_at s inode (pos + i)
    there i l n =
        let e : (pos + i) % block_size ≡ pos % block_size + i = omega arith in
        sym (
          here-byte_at s inode (pos + i) _ (same i l) n
          ∙ ap (s.blocks (located s inode (pos / block_size))) e)

read_loop-Reads :
    (n : ℕ) (s : Fs) (inode : Inode) (pos left : ℕ)
    → ((b : ℕ) → s.works b ≡ true)
    → left ≤ n
    → Reads s inode pos left (read_loop n s inode pos left)
unfolding read_loop
read_loop-Reads zero s inode pos left w h = record {
  all = omega arith;
  bytes = λ i k. absurd (omega arith);
}
read_loop-Reads (suc n) s inode pos left w h =
    let after : left ≢ 0 → Reads s inode (pos + chunk) (left - chunk) rest =
      λ m. read_loop-Reads n s inode (pos + chunk) (left - chunk) w (omega (arith, positive m)) in
    subst
      (λ x. Reads s inode pos left (
        if left == 0
        then []
        else if x == 0
        then replicate chunk 0 ++ rest
        else if not (s.works x)
        then []
        else block_bytes (s.blocks x) (pos % block_size) chunk ++ rest))
      (sym (block_for-located s inode (pos / block_size) w))
      (if_elim (Reads s inode pos left) (left == 0) _ _
        (λ e. record { all = ground arith; bytes = λ i k. absurd (ground arith) })
        (λ e.
          let (a, b) = chunk-Reads s inode pos chunk (omega arith) (positive (λ z. ground arith)) in
          if_elim (Reads s inode pos left) (located s inode (pos / block_size) == 0) _ _
            (λ z.
              Reads-append s inode pos chunk left _ rest (omega arith) (a (ground arith))
                (after (λ z. ground arith)))
            (λ z.
              if_elim (Reads s inode pos left) (not (s.works (located s inode (pos / block_size))))
                _ _ (λ d. absurd (fails _ (w _) d))
                (λ d.
                  Reads-append s inode pos chunk left _ rest (omega arith) (b (λ q. ground arith))
                    (after (λ q. ground arith))))))
  where
    chunk : ℕ
    chunk = min (block_size - pos % block_size) left

    rest : List ℕ
    rest = read_loop n s inode (pos + chunk) (left - chunk)

    positive : left ≢ 0 → 0 < chunk
    positive m = omega arith

pub inode_read-some :
    (s : Fs) (number : ℕ)
    → is_inode s number ≡ true
    → inode_read s number ≡ some (stored_inode s number)
unfolding inode_read
inode_read-some s number i = ap (λ c. if c then some (stored_inode s number) else none) i

-- `sfs_file_read` of an inode whose file is well formed, from inside the file, gives the bytes of the
-- file up to its end or to the count.
pub file_read-Reads :
    (s : Fs) (number offset count : ℕ)
    → is_inode s number ≡ true
    → IsFile s (stored_inode s number)
    → offset + count < 2 ^ 32
    → offset < (stored_inode s number).size
    → (out : List ℕ) × (file_read s number offset count ≡ some out)
      × Reads s
          (stored_inode s number)
          offset
          (min count ((stored_inode s number).size - offset))
          out
unfolding file_read
file_read-Reads s number offset count i f h l = (
  read_loop n s inode offset n,
  ap body (inode_read-some s number i)
      ∙ ap (λ c. if c then some [] else some (read_loop n s inode offset n)) inside,
  subst (λ x. Reads s inode offset x (read_loop n s inode offset n)) e
      (read_loop-Reads n s inode offset n f.works (omega arith)),
)
  where
    inode : Inode
    inode = stored_inode s number

    n : ℕ
    n = if ltb inode.size ((offset + count) % 2 ^ 32) then inode.size - offset else count

    e : n ≡ min count (inode.size - offset)
    e = ground arith

    inside : leb inode.size offset ≡ false
    inside = ground arith

    body : Option Inode → Option (List ℕ)
    body r = elim r [
      | none ↦ none
      | some inode ↦
          (let n =
              if ltb inode.size ((offset + count) % 2 ^ 32) then inode.size - offset else count in
            if leb inode.size offset then some [] else some (read_loop n s inode offset n))
    ]
