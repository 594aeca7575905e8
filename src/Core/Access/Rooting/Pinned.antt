-- ===== src/Core/Access/Rooting/Pinned.antt =====
-- The roots of a guard are the grants of its policy, and a descriptor is one of the vetted directory.
use sandbx.Common.{ℕ, Bool, List, [], ◌∷◌, ◌++◌, Option, some, Bytes, ◌≡◌, map, retain}
use sandbx.Core.Policy.{VettedPath, Grants, grants, GrantedPath}
use sandbx.Core.Host.{Host, confirmed, confirm}
use sandbx.Core.Guard.{Root}
use sandbx.Core.Access.Rooting.{Rooting, Openat2, Building}

-- A root's descriptor was opened by its name, following no link, while that held the vetted object.
abbrev pub Pinned : Host → Root → Type 0
Pinned h r =
    (d : ℕ)
    → r.dir ≡ some d
    → (h.open_strictly r.vetted.path ≡ some d) × (confirm h r.vetted ≡ confirmed)

abbrev pub AllPinned : Host → List Root → Type 0
AllPinned h [] = Unit {0}
AllPinned h (r ∷ rs) = Pinned h r × AllPinned h rs

abbrev pub vetted_of : Root → VettedPath
vetted_of r = r.vetted

abbrev granted_vetted : GrantedPath → VettedPath
granted_vetted p = p.vetted

abbrev granting : (Grants → Bool) → List GrantedPath → List VettedPath
granting f ps = map granted_vetted (retain (λ p. f (grants p.axis)) ps)

module _ (h : Host) (kernel : Openat2) (session : Option Bytes) where
  -- The grants whose roots a building has, those to come included.
  record Builds (ps : List GrantedPath) (b e : Building) : Type 0 where
    reads : map vetted_of e.readable ≡ map vetted_of b.readable ++ granting (λ g. g.reads) ps
    writes : map vetted_of e.writable ≡ map vetted_of b.writable ++ granting (λ g. g.writes) ps
    read_pins : AllPinned h b.readable → AllPinned h e.readable
    write_pins : AllPinned h b.writable → AllPinned h e.writable
