-- ===== src/Core/FilePath.antt =====
-- A path as std::path reads it: whether it is absolute, and its components. The root is the flag;
-- repeated separators and a `.` that does not lead are not components.
pub mod Prefix
use sandbx.Common.{
  ℕ, Bool, true, false, not, ◌&&◌, ◌==◌, List, [], ◌∷◌, ◌++◌, Option, none, some, Bytes, codes,
  str_eq, retain, map, is_empty, if◌then◌else◌,
}

pub data Component : Type 0 where
  cur_dir parent_dir : Component
  normal : Bytes → Component

pub record FilePath : Type 0 where
  pub absolute : Bool
  pub parts : List Component

abbrev separator : ℕ
separator = 47

abbrev cons_head : ℕ → List Bytes → List Bytes
cons_head c [] = (c ∷ []) ∷ []
cons_head c (s ∷ ss) = (c ∷ s) ∷ ss

segments : Bytes → List Bytes
segments [] = [] ∷ []
segments (c ∷ cs) = let rest = segments cs in if c == separator then [] ∷ rest else cons_head c rest

component_of : Bytes → Component
component_of s = if str_eq s (codes "..") then parent_dir else normal s

interior : List Bytes → List Component
unfolding component_of
interior [] = []
interior (s ∷ ss) =
    let rest = interior ss in
    if is_empty s then rest else if str_eq s (codes ".") then rest else component_of s ∷ rest

leading : List Bytes → List Component
unfolding interior
leading [] = []
leading (s ∷ ss) = if str_eq s (codes ".") then cur_dir ∷ interior ss else interior (s ∷ ss)

abbrev begins_at_root : Bytes → Bool
begins_at_root [] = false
begins_at_root (c ∷ cs) = c == separator

-- `Path::new(..).components()`.
unfoldable pub components : Bytes → FilePath
unfolding segments interior leading
components s = record {
  absolute = begins_at_root s;
  parts = if begins_at_root s then interior (segments s) else leading (segments s);
}

abbrev pub component_eq : Component → Component → Bool
component_eq cur_dir cur_dir = true
component_eq parent_dir parent_dir = true
component_eq (normal s) (normal t) = str_eq s t
component_eq _ _ = false

abbrev pub bool_eq : Bool → Bool → Bool
bool_eq true b = b
bool_eq false b = not b

abbrev pub parts_eq : List Component → List Component → Bool
parts_eq [] [] = true
parts_eq (c ∷ cs) (d ∷ ds) = component_eq c d && parts_eq cs ds
parts_eq _ _ = false

-- `==` on paths.
unfoldable pub path_eq : FilePath → FilePath → Bool
path_eq p q = bool_eq p.absolute q.absolute && parts_eq p.parts q.parts

-- The components behind a prefix.
unfoldable pub strip_parts : List Component → List Component → Option (List Component)
strip_parts cs [] = some cs
strip_parts [] (d ∷ ds) = none
strip_parts (c ∷ cs) (d ∷ ds) =
    let rest = strip_parts cs ds in if component_eq c d then rest else none

-- `Path::strip_prefix`: what it gives is relative.
unfoldable pub strip_prefix : FilePath → FilePath → Option FilePath
strip_prefix p q =
    elim (if bool_eq p.absolute q.absolute then strip_parts p.parts q.parts else none) [
      | none ↦ none
      | some rest ↦ some (record { absolute = false; parts = rest })
    ]

-- `Path::starts_with`.
unfoldable pub starts_with : FilePath → FilePath → Bool
starts_with p q = elim (strip_prefix p q) [ none ↦ false | some rest ↦ true ]

abbrev pub parts_but_last : List Component → List Component
parts_but_last [] = []
parts_but_last (c ∷ []) = []
parts_but_last (c ∷ d ∷ cs) = c ∷ parts_but_last (d ∷ cs)

-- `Path::parent`: none of a root or an empty path.
unfoldable pub parent : FilePath → Option FilePath
parent p = if is_empty p.parts then none else some (record p { parts = parts_but_last p.parts })

abbrev pub last_name : List Component → Option Bytes
last_name [] = none
last_name (normal s ∷ []) = some s
last_name (c ∷ []) = none
last_name (c ∷ d ∷ cs) = last_name (d ∷ cs)

-- `Path::file_name`.
unfoldable pub file_name : FilePath → Option Bytes
file_name p = last_name p.parts

prefixes : List Component → List (List Component)
prefixes [] = [] ∷ []
prefixes (c ∷ cs) = map (◌∷◌ c) (prefixes cs) ++ [] ∷ []

-- `Path::ancestors`: the path, its parent, and so on to the root or the empty path.
unfoldable pub ancestors : FilePath → List FilePath
unfolding prefixes
ancestors p = map (λ cs. record { absolute = p.absolute; parts = cs }) (prefixes p.parts)

-- `Path::join` with a path that is not absolute.
unfoldable pub join : FilePath → FilePath → FilePath
join p q = record p { parts = p.parts ++ retain (λ c. not (component_eq c cur_dir)) q.parts }

abbrev pub join_name : FilePath → Bytes → FilePath
join_name p s = record p { parts = p.parts ++ normal s ∷ [] }
