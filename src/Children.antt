-- ===== src/Children.antt =====
-- kernel/fs/vfs.c: the list of children of a directory, in the order of `next_sibling`.
-- A child is its name and the identity of its node.
use sifar_os.Common.{
  ℕ, ◌+◌, ◌^◌, Bool, true, false, ◌&&◌, Option, none, some, List, [], ◌∷◌, if◌then◌else◌, leb, ◌==◌,
  length,
}
use sifar_os.Str.{Bytes, strlen, strcmp, strncmp}
pub mod Lookup

pub record Child : Type 0 where
  pub name : Bytes
  pub node : ℕ

-- `strlen(c->name) == len && strncmp(c->name, name, len) == 0`
abbrev pub is_named : Bytes → Child → Bool
is_named name c = (strlen c.name == length name) && (strncmp c.name name (length name) == 0)

-- `find_child` in a directory.
unfoldable pub find_child : Bytes → List Child → Option Child
find_child name [] = none
find_child name (c ∷ cs) = let rest = find_child name cs in if is_named name c then some c else rest

-- `strcmp((*slot)->name, child->name) < 0`, with the `int` as its pattern.
abbrev pub is_before : Child → Child → Bool
is_before c child = leb (2 ^ 31) (strcmp c.name child.name)

-- `link_child`
unfoldable pub link_child : Child → List Child → List Child
link_child child [] = child ∷ []
link_child child (c ∷ cs) =
    let rest = link_child child cs in if is_before c child then c ∷ rest else child ∷ c ∷ cs

-- `unlink_child`
unfoldable pub unlink_child : ℕ → List Child → List Child
unlink_child node [] = []
unlink_child node (c ∷ cs) =
    let rest = unlink_child node cs in if c.node == node then cs else c ∷ rest
