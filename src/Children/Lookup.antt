-- ===== src/Children/Lookup.antt =====
-- A child can be found by its name while it is linked.
use sifar_os.Common.{
  ℕ, ◌≡◌, ◌≢◌, refl, true, false, none, some, List, [], ◌∷◌, arith, Bool-cases, inl, inr, sym,
  length,
}
use sifar_os.Str.{Bytes, strncmp}
use sifar_os.Str.Laws.{AreChars, strlen-length, strncmp_length}
use sifar_os.Children.{Child, is_named, find_child, link_child, unlink_child}

abbrev pub AreNamed : List Child → Type 0
AreNamed [] = Unit {0}
AreNamed (c ∷ cs) = AreChars c.name × AreNamed cs

is_named_self : (c : Child) → AreChars c.name → is_named c.name c ≡ true
is_named_self c a =
    let z : strncmp c.name c.name (length c.name) ≡ 0 =
      (strncmp_length c.name c.name a a refl).1 refl in
    ground (arith, z, strlen-length c.name)

is_named_other :
    (name : Bytes) (c : Child)
    → AreChars c.name
    → AreChars name
    → c.name ≢ name
    → is_named name c ≡ false
is_named_other name c a b ne = elim (Bool-cases (is_named name c)) [
  | inr differs ↦ differs
  | inl agrees ↦
      let l : length c.name ≡ length name = ground (arith, strlen-length c.name) in
      absurd (ne ((strncmp_length c.name name a b l).0 (ground arith)))
]

find_linked :
    (child : Child) (cs : List Child) (name : Bytes)
    → find_child child.name cs ≡ none
    → is_named child.name child ≡ true
    → find_child child.name (link_child child cs) ≡ some child
unfolding find_child link_child
find_linked child [] name h e = ground arith
find_linked child (c ∷ cs) name h e = ground (arith, find_linked child cs name (ground arith) e)

find_unlinked :
    (child : Child) (cs : List Child) (name : Bytes)
    → is_named name child ≡ false
    → find_child name (link_child child cs) ≡ find_child name cs
unfolding find_child link_child
find_unlinked child [] name e = ground arith
find_unlinked child (c ∷ cs) name e = ground (arith, find_unlinked child cs name e)

-- For C strings as names, a child whose name no other child has is found under its name once it is
-- linked, and every other name finds what it found before.
pub find_child-link_child :
    (child : Child) (cs : List Child) (name : Bytes)
    → AreChars child.name
    → AreChars name
    → find_child child.name cs ≡ none
    → (find_child child.name (link_child child cs) ≡ some child)
      × (name ≢ child.name → find_child name (link_child child cs) ≡ find_child name cs)
find_child-link_child child cs name a b h = (
  find_linked child cs name h (is_named_self child a),
  λ ne. find_unlinked child cs name (is_named_other name child a b (λ e. ne (sym e))),
)

abbrev pub Lacks : ℕ → List Child → Type 0
Lacks node [] = Unit {0}
Lacks node (c ∷ cs) = (c.node ≢ node) × Lacks node cs

-- Unlinking a child that was not in the list before it was linked gives back the list.
pub unlink_child-link_child :
    (child : Child) (cs : List Child)
    → Lacks child.node cs
    → unlink_child child.node (link_child child cs) ≡ cs
unfolding unlink_child link_child
unlink_child-link_child child [] h = ground arith
unlink_child-link_child child (c ∷ cs) (n, h) = ground (arith, unlink_child-link_child child cs h)
