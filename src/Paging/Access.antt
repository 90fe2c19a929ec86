-- ===== src/Paging/Access.antt =====
-- `vmm_access_ok_in`: what the check of a user's pointer amounts to.
use sifar_os.Common.{
  ℕ, zero, suc, ◌+◌, ◌-◌, ◌*◌, ◌/◌, ◌%◌, ◌^◌, ◌<◌, ◌≤◌, ◌≡◌, ◌↔◌, refl, sym, ap, subst, Bool, true,
  ◌&&◌, ◌||◌, not, arith, inl, inr, ◌==◌, ltb, leb, Bool-cases, ◌∙◌, max,
}
use sifar_os.Paging.Tables.{
  Vm, page_size, user_min, user_max, dir_index, table_index, is_present, is_user, is_write,
  frame_of, align_down,
}
use sifar_os.Paging.Ranges.{page_ok, pages_ok, page_count, access_ok_in}

-- Every table of the space is entered as writable, as `table_for` enters it.
unfoldable pub WritableTables : Vm → ℕ → Type 0
WritableTables m pd =
    (i : ℕ) → i < 1024 → is_present (m.frames pd i) ≡ true → is_write (m.frames pd i) ≡ true

-- What the processor asks of a user's access to the byte at `v`, which is to lie in the user's half:
-- the entries of both levels are present and open to the user, and for a write both are writable.
unfoldable pub user_byte : Vm → ℕ → ℕ → Bool → Bool
user_byte m pd v write =
    let pde = m.frames pd (dir_index v) in
    let pte = m.frames (frame_of pde) (table_index v) in
    (leb user_min v && ltb v user_max)
    && ((is_present pde && is_present pte)
        && ((is_user pde && is_user pte) && (not write || (is_write pde && is_write pte))))

byte_page :
    (m : Vm) (pd v page : ℕ) (write : Bool)
    → v / 4096 ≡ page / 4096
    → page_ok m pd v write ≡ page_ok m pd page write
unfolding page_ok
byte_page m pd v page write e =
    let d : dir_index v ≡ dir_index page = omega arith in
    let t : table_index v ≡ table_index page = omega arith in
    ap (λ x. at x (table_index v)) d ∙ ap (at (dir_index page)) t
  where
    at : ℕ → ℕ → Bool
    at i j =
        let pde = m.frames pd i in
        let pte = m.frames (frame_of pde) j in
        (is_present pde && is_user pde)
        && ((is_present pte && is_user pte) && not (write && not (is_write pte)))

user_byte_page :
    (m : Vm) (pd v : ℕ) (write : Bool)
    → WritableTables m pd
    → v < 2 ^ 32
    → user_byte m pd v write ≡ ((leb user_min v && ltb v user_max) && page_ok m pd v write)
unfolding user_byte page_ok WritableTables
user_byte_page m pd v write w h = ground (arith, w (dir_index v) (omega arith))

-- The loop checks each of its pages.
pages_ok_all :
    (n : ℕ) (m : Vm) (pd page v : ℕ) (write : Bool)
    → page % 4096 ≡ 0
    → pages_ok m pd n page write ≡ true
    → page ≤ v
    → v < page + n * 4096
    → page_ok m pd v write ≡ true
unfolding pages_ok
pages_ok_all zero m pd page v write a h l k = absurd (omega arith)
pages_ok_all (suc n) m pd page v write a h l k = elim (Bool-cases (v / 4096 == page / 4096)) [
  | inl same ↦ byte_page m pd v page write (ground arith) ∙ ground arith
  | inr other ↦
      pages_ok_all n m pd (page + 4096) v write (omega arith) (ground arith) (ground arith)
        (omega arith)
]

pages_ok_if :
    (n : ℕ) (m : Vm) (pd page : ℕ) (write : Bool)
    → page + n * 4096 ≤ 2 ^ 32 - 4096
    → ((i : ℕ) → i < n → page_ok m pd (page + i * 4096) write ≡ true)
    → pages_ok m pd n page write ≡ true
unfolding pages_ok
pages_ok_if zero m pd page write b f = refl
pages_ok_if (suc n) m pd page write b f = ground (
  arith,
  f 0 (omega arith),
  pages_ok_if n m pd (page + 4096) write (omega arith)
      (λ i k. subst (λ x. page_ok m pd x write ≡ true) (omega arith) (f (suc i) (omega arith))),
)

granted :
    (m : Vm) (pd start size : ℕ) (write : Bool) (v : ℕ)
    → WritableTables m pd
    → access_ok_in m pd start size write ≡ true
    → start ≤ v
    → v < start + size
    → user_byte m pd v write ≡ true
unfolding access_ok_in
granted m pd start size write v w e l k =
    let n : ℕ = page_count (align_down start) (start + size) in
    let p : page_ok m pd v write ≡ true =
      pages_ok_all n m pd (align_down start) v write (omega arith) (ground arith) (omega arith)
        (omega arith) in
    user_byte_page m pd v write w (ground arith) ∙ ground (arith, p)

none_ok :
    (m : Vm) (pd start size : ℕ) (write : Bool)
    → size ≡ 0
    → access_ok_in m pd start size write ≡ true
unfolding access_ok_in
none_ok m pd start size write e = ground arith

in_user_half :
    (m : Vm) (pd v : ℕ) (write : Bool)
    → user_byte m pd v write ≡ true
    → (user_min ≤ v) × (v < user_max)
unfolding user_byte
in_user_half m pd v write e = (ground arith, ground arith)

grants :
    (m : Vm) (pd start size : ℕ) (write : Bool)
    → WritableTables m pd
    → 0 < size
    → ((v : ℕ) → start ≤ v → v < start + size → user_byte m pd v write ≡ true)
    → access_ok_in m pd start size write ≡ true
unfolding access_ok_in
grants m pd start size write w p f =
    let first = in_half start (f start (omega arith) (omega arith)) in
    let last = in_half (start + size - 1) (f (start + size - 1) (omega arith) (omega arith)) in
    let pages =
      pages_ok_if (page_count (align_down start) (start + size)) m pd (align_down start) write
        (omega (arith, last)) (λ i k. checked i k) in
    ground (arith, first, last, pages)
  where
    in_half : (v : ℕ) → user_byte m pd v write ≡ true → (user_min ≤ v) × (v < user_max)
    in_half v e = in_user_half m pd v write e

    checked :
        (i : ℕ)
        → i < page_count (align_down start) (start + size)
        → page_ok m pd (align_down start + i * page_size) write ≡ true
    checked i k =
        let v : ℕ = max start (align_down start + i * page_size) in
        let e : page_ok m pd v write ≡ true =
          (let u = f v (omega arith) (omega arith) in
            ground (arith, user_byte_page m pd v write w (omega (arith, in_half v u)), u)) in
        sym (byte_page m pd v (align_down start + i * page_size) write (omega arith)) ∙ e

-- On a space whose tables are all entered as writable, `vmm_access_ok_in` says yes exactly if every
-- byte of the range lies in the half of the user and is one that the processor lets the user read,
-- and write where `write` asks for that: both levels are present and open to the user, and for a write
-- both are writable.
pub access_ok_in-user_byte :
    (m : Vm) (pd start size : ℕ) (write : Bool)
    → WritableTables m pd
    → (access_ok_in m pd start size write ≡ true)
      ↔ ((v : ℕ) → start ≤ v → v < start + size → user_byte m pd v write ≡ true)
access_ok_in-user_byte m pd start size write w = (
  λ e v l k. granted m pd start size write v w e l k,
  λ f. elim (Bool-cases (size == 0)) [
    | inl none_asked ↦ none_ok m pd start size write (ground arith)
    | inr some_asked ↦ grants m pd start size write w (ground arith) f
  ],
)
