-- ===== src/Sfs/Dirs.antt =====
-- Directories, and the operations of the file system that the tree of files calls.
use sifar_os.Common.{
  ℕ, zero, suc, ◌+◌, ◌-◌, ◌/◌, ◌%◌, ◌^◌, Bool, true, false, ◌&&◌, Option, none, some, List, [], ◌∷◌,
  ◌++◌, if◌then◌else◌, leb, ltb, ◌==◌, drop, get_or, replicate,
}
use sifar_os.Str.{strlen, strcmp}
use sifar_os.Sfs.Disk.{Fs, Inode, blank, byte_of, word_at, inode_read, inode_write, alloc_inode}
use sifar_os.Sfs.Files.{file_read, file_write, file_truncate, release_blocks}

abbrev pub name_max : ℕ
name_max = 56

abbrev pub dirent_size : ℕ
dirent_size = 64

-- The bytes of a word, lowest first.
abbrev pub word_bytes : ℕ → List ℕ
word_bytes w = byte_of w 0 ∷ byte_of w 1 ∷ byte_of w 2 ∷ byte_of w 3 ∷ []

-- `struct sfs_dirent` of a child and its name.
abbrev pub dirent : ℕ → List ℕ → List ℕ
dirent child name =
    word_bytes child ++ (word_bytes (strlen name) ++ (name ++ replicate (name_max - strlen name) 0))

abbrev pub dirent_inode : List ℕ → ℕ
dirent_inode bytes = word_at (λ j. get_or bytes j 0) 0

-- The bytes before the first NUL.
unfoldable pub c_string : List ℕ → List ℕ
c_string [] = []
c_string (c ∷ cs) = let rest = c_string cs in if c == 0 then [] else c ∷ rest

abbrev pub dirent_name : List ℕ → List ℕ
dirent_name bytes = c_string (drop 8 bytes)

-- The entry at an offset; `none` is the `break` of the loops.
abbrev pub entry_bytes : Option (List ℕ) → Option (List ℕ)
entry_bytes none = none
entry_bytes (some []) = none
entry_bytes (some (c ∷ cs)) = some (c ∷ cs)

unfoldable pub dir_entry : Fs → ℕ → ℕ → Option (List ℕ)
dir_entry s dir offset = entry_bytes (file_read s dir offset dirent_size)

-- The loop of `dir_add`, `n` entries left: the offset of a hole, or of the end.
unfoldable pub find_hole : Fs → ℕ → ℕ → ℕ → ℕ → ℕ
unfolding dir_entry
find_hole s dir size zero offset = size
find_hole s dir size (suc n) offset =
    let rest = find_hole s dir size n (offset + dirent_size) in
    elim (dir_entry s dir offset) [
      | none ↦ size
      | some bytes ↦ if dirent_inode bytes == 0 then offset else rest
    ]

abbrev pub entry_count : ℕ → ℕ
entry_count size = (size + (dirent_size - 1)) / dirent_size

-- `sfs_file_write(...) > 0 ? 0 : -1`
abbrev pub wrote : Option ℕ × Fs → Bool × Fs
wrote (none, s) = (false, s)
wrote (some n, s) = (ltb 0 n, s)

-- `dir_add`; `false` is -1.
unfoldable pub dir_add : Fs → ℕ → List ℕ → ℕ → ℕ → Bool × Fs
unfolding find_hole
dir_add s dir name child now =
    if leb name_max (strlen name) then (false, s) else elim (inode_read s dir) [
      | none ↦ (false, s)
      | some inode ↦ wrote (
          file_write s dir (find_hole s dir inode.size (entry_count inode.size) 0)
            (dirent child name) now)
    ]

-- The loop of `dir_remove`: the offset of the entry.
unfoldable pub find_entry : Fs → ℕ → List ℕ → ℕ → ℕ → Option ℕ
unfolding dir_entry
find_entry s dir name zero offset = none
find_entry s dir name (suc n) offset =
    let rest = find_entry s dir name n (offset + dirent_size) in
    elim (dir_entry s dir offset) [
      | none ↦ none
      | some bytes ↦
          if dirent_inode bytes == 0
          then rest
          else if strcmp (dirent_name bytes) name == 0
          then some offset
          else rest
    ]

-- `dir_remove`; `false` is -1.
unfoldable pub dir_remove : Fs → ℕ → List ℕ → ℕ → Bool × Fs
unfolding find_entry
dir_remove s dir name now = elim (inode_read s dir) [
  | none ↦ (false, s)
  | some inode ↦ elim (find_entry s dir name (entry_count inode.size) 0) [
    | none ↦ (false, s)
    | some offset ↦ (true, (file_write s dir offset (replicate dirent_size 0) now).1)
  ]
]

-- `op_write` and `op_truncate`: `size` is the size in the node, and the last component the new one.
unfoldable pub op_write : Fs → ℕ → ℕ → ℕ → List ℕ → ℕ → Option ℕ × Fs × ℕ
op_write s number size offset bytes now = elim (file_write s number offset bytes now).0 [
  | none ↦ (none, (file_write s number offset bytes now).1, size)
  | some n ↦ (
    some n,
    (file_write s number offset bytes now).1,
    if ltb 0 n && ltb size ((offset + n) % 2 ^ 32) then (offset + n) % 2 ^ 32 else size,
  )
]

unfoldable pub op_truncate : Fs → ℕ → ℕ → ℕ → ℕ → Bool × Fs × ℕ
op_truncate s number size count now =
    let (done, t) = file_truncate s number count now in (done, t, if done then count else size)

-- The end of `op_create`, after `alloc_inode`.
abbrev pub link_inode : ℕ → List ℕ → ℕ → ℕ × Fs → Option ℕ × Fs
link_inode parent name now (number, s) =
    if number == 0
    then (none, s)
    else (let (linked, t) = dir_add s parent name number now in
        if linked then (some number, t) else (none, t))

-- `op_create`: the number of the new inode, which becomes the node's; `none` is -1.
unfoldable pub op_create : Fs → Option ℕ → List ℕ → Bool → ℕ → Option ℕ × Fs
op_create s none name is_dir now = (none, s)
op_create s (some parent) name is_dir now =
    link_inode parent name now (alloc_inode s (if is_dir then 2 else 1) now)

abbrev pub unlink : Fs → Option ℕ → List ℕ → ℕ → Fs
unlink s none name now = s
unlink s (some parent) name now = (dir_remove s parent name now).1

-- The end of `op_destroy`.
abbrev pub drop_inode : Fs → ℕ → Option Inode → Fs
drop_inode s number none = s
drop_inode s number (some inode) =
    let t = (release_blocks s inode 0).1 in
    let u : Fs = elim (inode_write t number blank) [ none ↦ t | some u ↦ u ] in
    record u { inodes_used = u.inodes_used - 1 }

-- `op_destroy`
unfoldable pub op_destroy : Fs → Option ℕ → ℕ → List ℕ → ℕ → Fs
op_destroy s parent number name now =
    let t = unlink s parent name now in
    if number == 0 then s else drop_inode t number (inode_read t number)
