-- ===== src/Sfs/Records.antt =====
-- The inodes in a block of the table: what is put at one place is read back there, and only there.
use sifar_os.Common.{
  ℕ, ◌+◌, ◌*◌, ◌/◌, ◌%◌, ◌^◌, ◌<◌, ◌≡◌, ◌≢◌, refl, sym, ap, ◌∙◌, true, false, if◌then◌else◌, ltb,
  ◌==◌, arith, Bool-cases, inl, inr,
}
use sifar_os.Sfs.Disk.{Inode, word_at, byte_of, inode_word, inode_at, put_inode_at}
use sifar_os.Sfs.Blocks.{word_join}

put_inode_byte :
    (b : ℕ → ℕ) (slot at k c p : ℕ) (inode : Inode)
    → k < 32
    → c < 4
    → p ≡ 4 * (32 * at + k) + c
    → put_inode_at b slot inode p ≡ (if at == slot then byte_of (inode_word inode k) c else b p)
put_inode_byte b slot at k c p inode h l e =
    let x : p / 128 ≡ at = omega arith in
    let y : p % 128 / 4 ≡ k = omega arith in
    let z : p % 4 ≡ c = omega arith in
    ap (λ n. if n == slot then byte_of (inode_word inode (p % 128 / 4)) (p % 4) else b p) x
    ∙ (ap (λ n. if at == slot then byte_of (inode_word inode n) (p % 4) else b p) y
        ∙ ap (λ n. if at == slot then byte_of (inode_word inode k) n else b p) z)

-- The words at the place of the inode are its own.
pub word_at-put_inode_at :
    (b : ℕ → ℕ) (slot k : ℕ) (inode : Inode)
    → k < 32
    → inode_word inode k < 2 ^ 32
    → word_at (put_inode_at b slot inode) (32 * slot + k) ≡ inode_word inode k
word_at-put_inode_at b slot k inode h l =
    let p : ℕ = 32 * slot + k in
    let same : (slot == slot) ≡ true = ground arith in
    word_join (inode_word inode k) (slot == slot) (b (4 * p)) (b (4 * p + 1)) (b (4 * p + 2))
      (b (4 * p + 3)) l (put_inode_byte b slot slot k 0 (4 * p) inode h (omega arith) (omega arith))
      (put_inode_byte b slot slot k 1 (4 * p + 1) inode h (omega arith) refl)
      (put_inode_byte b slot slot k 2 (4 * p + 2) inode h (omega arith) refl)
      (put_inode_byte b slot slot k 3 (4 * p + 3) inode h (omega arith) refl)
    ∙ ap (λ c. if c then inode_word inode k else word_at b p) same

-- The words at every other place are as they were.
pub word_at-put_inode_at_away :
    (b : ℕ → ℕ) (slot at k : ℕ) (inode : Inode)
    → k < 32
    → at ≢ slot
    → word_at (put_inode_at b slot inode) (32 * at + k) ≡ word_at b (32 * at + k)
word_at-put_inode_at_away b slot at k inode h n =
    let p : ℕ = 32 * at + k in
    let other : (at == slot) ≡ false = ground arith in
    same_words p
      (put_inode_byte b slot at k 0 (4 * p) inode h (omega arith) (omega arith)
        ∙ ap (λ c. if c then byte_of (inode_word inode k) 0 else b (4 * p)) other)
      (put_inode_byte b slot at k 1 (4 * p + 1) inode h (omega arith) refl
        ∙ ap (λ c. if c then byte_of (inode_word inode k) 1 else b (4 * p + 1)) other)
      (put_inode_byte b slot at k 2 (4 * p + 2) inode h (omega arith) refl
        ∙ ap (λ c. if c then byte_of (inode_word inode k) 2 else b (4 * p + 2)) other)
      (put_inode_byte b slot at k 3 (4 * p + 3) inode h (omega arith) refl
        ∙ ap (λ c. if c then byte_of (inode_word inode k) 3 else b (4 * p + 3)) other)
  where
    same_words :
        (p : ℕ) {x y z u : ℕ}
        → x ≡ b (4 * p)
        → y ≡ b (4 * p + 1)
        → z ≡ b (4 * p + 2)
        → u ≡ b (4 * p + 3)
        → x + 2 ^ 8 * y + 2 ^ 16 * z + 2 ^ 24 * u ≡ word_at b p
    same_words p d e f g = omega arith

-- An inode is its 32 words.
pub inode_at_same :
    (b c : ℕ → ℕ) (at : ℕ)
    → ((k : ℕ) → k < 32 → word_at b (32 * at + k) ≡ word_at c (32 * at + k))
    → inode_at b at ≡ inode_at c at
unfolding inode_at
inode_at_same b c at h =
    let zero_off : 32 * at + 0 ≡ 32 * at = omega arith in
    let first : word_at b (32 * at) ≡ word_at c (32 * at) =
      ap (word_at b) (sym zero_off) ∙ (h 0 (omega arith) ∙ ap (word_at c) zero_off) in
    λ i. record {
      type = first i;
      size = h 1 (omega arith) i;
      links = h 2 (omega arith) i;
      created = h 3 (omega arith) i;
      modified = h 4 (omega arith) i;
      flags = h 5 (omega arith) i;
      direct = λ j. several 12 6 j (λ l. h (6 + j) (omega arith)) i;
      indirect = h 18 (omega arith) i;
      reserved = λ j. several 13 19 j (λ l. h (19 + j) (omega arith)) i;
    }
  where
    several :
        (count first j : ℕ)
        → (j < count → word_at b (32 * at + (first + j)) ≡ word_at c (32 * at + (first + j)))
        → (if ltb j count then word_at b (32 * at + (first + j)) else 0)
          ≡ (if ltb j count then word_at c (32 * at + (first + j)) else 0)
    several count first j e = elim (Bool-cases (ltb j count)) [
      | inl low ↦ ap (λ x. if ltb j count then x else 0) (e (ground arith))
      | inr high ↦
          ap (λ x. if x then word_at b (32 * at + (first + j)) else 0) high
          ∙ sym (ap (λ x. if x then word_at c (32 * at + (first + j)) else 0) high)
    ]
