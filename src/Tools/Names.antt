-- ===== src/Tools/Names.antt =====
-- A tool and its name determine one another.
use sandbx.Common.{◌≡◌, refl, inl, inr, Bool-cases, Bytes, some, List, [], ◌∷◌, str_eq, str_eq_iff}
use sandbx.Tools.{
  BuiltinTool, read, write, bash, edit, ls, grep, find, all_tools, name, find_named, from_name,
}

-- The name of a tool resolves to that tool.
pub from_name-name : (t : BuiltinTool) → from_name (name t) ≡ some t
unfolding from_name
from_name-name read = refl
from_name-name write = refl
from_name-name bash = refl
from_name-name edit = refl
from_name-name ls = refl
from_name-name grep = refl
from_name-name find = refl

find_named-name :
    (n : Bytes) (ts : List BuiltinTool) (t : BuiltinTool) → find_named n ts ≡ some t → n ≡ name t
unfolding find_named
find_named-name n [] t e = cc
find_named-name n (s ∷ ts) t e = elim (Bool-cases (str_eq (name s) n)) [
  | inl hit ↦ cc ((str_eq_iff (name s) n).0 hit, rw hit at e)
  | inr miss ↦ find_named-name n ts t (rw miss at e)
]

-- Nothing but the exact name of a tool resolves to it.
from_name_exact : (n : Bytes) {t : BuiltinTool} → from_name n ≡ some t → n ≡ name t
unfolding from_name
from_name_exact n e = find_named-name n all_tools _ e
