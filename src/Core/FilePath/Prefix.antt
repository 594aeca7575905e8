-- ===== src/Core/FilePath/Prefix.antt =====
-- What a prefix of a path leaves: the rest behind it.
use sandbx.Common.{
  Bytes, Bool-cases, Option-cases, inl, inr, some, Bool, true, false, List, [], ◌∷◌, ◌++◌, some,
  ◌≡◌, refl, ap, ap, arith, str_eq_iff, str_eq_refl, all, not, map,
}
use sandbx.Core.FilePath.{
  Component, cur_dir, parent_dir, normal, FilePath, component_eq, prefixes, ancestors, parts_eq,
  path_eq, bool_eq, starts_with, join_name, strip_parts, strip_prefix,
}

pub component_eq-eq : (c d : Component) → component_eq c d ≡ true → c ≡ d
component_eq-eq cur_dir cur_dir e = refl
component_eq-eq parent_dir parent_dir e = refl
component_eq-eq (normal s) (normal t) e = ap normal ((str_eq_iff s t).0 e)
component_eq-eq cur_dir parent_dir e = cc e
component_eq-eq cur_dir (normal t) e = cc e
component_eq-eq parent_dir cur_dir e = cc e
component_eq-eq parent_dir (normal t) e = cc e
component_eq-eq (normal s) cur_dir e = cc e
component_eq-eq (normal s) parent_dir e = cc e

strip_parts-append : (cs ds rest : List Component) → strip_parts cs ds ≡ some rest → ds ++ rest ≡ cs
unfolding strip_parts
strip_parts-append cs [] rest e = cc e
strip_parts-append [] (d ∷ ds) rest e = cc e
strip_parts-append (c ∷ cs) (d ∷ ds) rest e =
    ground (arith, component_eq-eq c d, strip_parts-append cs ds rest)

-- The prefix and what is left of the path make the path again.
pub strip_prefix-append :
    (p q rest : FilePath)
    → strip_prefix p q ≡ some rest
    → (p.absolute ≡ q.absolute) × (q.parts ++ rest.parts ≡ p.parts) × (rest.absolute ≡ false)
unfolding strip_prefix
strip_prefix-append p q rest e = ground (arith, strip_parts-append p.parts q.parts rest.parts)

component_eq_refl : (c : Component) → component_eq c c ≡ true
component_eq_refl cur_dir = refl
component_eq_refl parent_dir = refl
component_eq_refl (normal s) = str_eq_refl s

parts_eq_refl : (cs : List Component) → parts_eq cs cs ≡ true
parts_eq_refl [] = refl
parts_eq_refl (c ∷ cs) = ground (arith, component_eq_refl c, parts_eq_refl cs)

pub path_eq_refl : (p : FilePath) → path_eq p p ≡ true
unfolding path_eq
path_eq_refl p = ground (arith, parts_eq_refl p.parts)

parts_eq-eq : (cs ds : List Component) → parts_eq cs ds ≡ true → cs ≡ ds
parts_eq-eq [] [] e = refl
parts_eq-eq [] (d ∷ ds) e = cc e
parts_eq-eq (c ∷ cs) [] e = cc e
parts_eq-eq (c ∷ cs) (d ∷ ds) e = ground (arith, component_eq-eq c d, parts_eq-eq cs ds)

pub path_eq-eq : (p q : FilePath) → path_eq p q ≡ true → p ≡ q
unfolding path_eq
path_eq-eq p q e = ground (arith, parts_eq-eq p.parts q.parts)

abbrev pub is_normal : Component → Bool
is_normal (normal s) = true
is_normal _ = false

-- Nothing of a path climbs out of where it is resolved.
abbrev pub stays_below : FilePath → Bool
stays_below p = all (λ c. not (component_eq c parent_dir)) p.parts

pub normal-stays :
    (cs : List Component)
    → all is_normal cs ≡ true
    → all (λ c. not (component_eq c parent_dir)) cs ≡ true
normal-stays [] e = refl
normal-stays (normal s ∷ cs) e = normal-stays cs e
normal-stays (cur_dir ∷ cs) e = cc e
normal-stays (parent_dir ∷ cs) e = cc e

pub normal-named :
    (cs : List Component)
    → all is_normal cs ≡ true
    → all (λ c. not (component_eq c cur_dir)) cs ≡ true
normal-named [] e = refl
normal-named (normal s ∷ cs) e = normal-named cs e
normal-named (cur_dir ∷ cs) e = cc e
normal-named (parent_dir ∷ cs) e = cc e

prefixes_self : (cs : List Component) → (rest : List (List Component)) × (prefixes cs ≡ cs ∷ rest)
unfolding prefixes
prefixes_self [] = ([], refl)
prefixes_self (c ∷ cs) =
    let (rest, e) = prefixes_self cs in (map (◌∷◌ c) rest ++ [] ∷ [], rw e refl)

-- The first of a path's ancestors is the path.
pub ancestors_self : (p : FilePath) → (ps : List FilePath) × (ancestors p ≡ p ∷ ps)
unfolding ancestors
ancestors_self p =
    let (rest, e) = prefixes_self p.parts in
    (map (λ cs. record { absolute = p.absolute; parts = cs }) rest, rw e refl)

strip_parts_longer :
    (cs ds more : List Component) {rest : List Component}
    → strip_parts cs ds ≡ some rest
    → strip_parts (cs ++ more) ds ≡ some (rest ++ more)
unfolding strip_parts
strip_parts_longer cs [] more e = ground arith
strip_parts_longer [] (d ∷ ds) more e = cc e
strip_parts_longer (c ∷ cs) (d ∷ ds) more {rest} e =
    ground (arith, strip_parts_longer cs ds more {rest = rest})

-- A name in a directory is where the directory is.
pub starts_with-join_name :
    (p q : FilePath) (name : Bytes)
    → starts_with p q ≡ true
    → starts_with (join_name p name) q ≡ true
unfolding starts_with strip_prefix
starts_with-join_name p q name e = elim (Bool-cases (bool_eq p.absolute q.absolute)) [
  | inl a ↦ elim (Option-cases (strip_parts p.parts q.parts)) [
    | inl n ↦ ground arith
    | inr (rest, n) ↦
        ground (arith, strip_parts_longer p.parts q.parts (normal name ∷ []) {rest = rest} n)
  ]
  | inr a ↦ ground arith
]

strip_parts_self : (cs : List Component) → strip_parts cs cs ≡ some []
unfolding strip_parts
strip_parts_self [] = refl
strip_parts_self (c ∷ cs) = ground (arith, component_eq_refl c, strip_parts_self cs)

pub starts_with_refl : (p : FilePath) → starts_with p p ≡ true
unfolding starts_with strip_prefix
starts_with_refl p = elim (Bool-cases p.absolute) [
  | inl a ↦ ground (arith, strip_parts_self p.parts)
  | inr a ↦ ground (arith, strip_parts_self p.parts)
]
