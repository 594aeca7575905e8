-- ===== src/Grants.antt =====
-- crates/sandbx-grants/src/grants.rs and the paths of root.rs: the policy that the flags of a command
-- line describe. Of an error that carries a source only the rest is kept.
mod Tests
pub mod Resolver
pub mod Sound
pub mod Executables
pub mod Whole
use sandbx.Common.{
  ℕ, zero, suc, Bool, true, false, not, ◌&&◌, ◌||◌, ◌==◌, List, [], ◌∷◌, ◌++◌, map, any, Option,
  none, some, Bytes, codes, str_eq, if◌then◌else◌, is_empty, drop, length, ◌-◌,
}
use sandbx.Core.FilePath.{FilePath, components, path_eq, starts_with, ancestors, join}
use sandbx.Core.Policy.{
  VettedPath, Axis, read, write, read_execute, all_axes, grants, SandboxPolicy, default_policy,
  grant, allow_network, allow_network_port, allow_unix_sockets, hint_dns_over_tcp, allow_env,
  allow_dns, has_port, nameserver_port,
}

pub record OwnedPath : Type 0 where
  pub path : FilePath
  pub holds : Bytes

-- The variants that a policy is refused with: those of root.rs for the working directory are one.
pub data PolicyError : Type 0 where
  no_default : PolicyError
  imposed_variable : Bytes → PolicyError
  grant_reaches_owned : FilePath → OwnedPath → PolicyError
  unresolvable_grant unpinnable_grant dns_grants_bound_file : FilePath → PolicyError
  dns_with_resolver_hint dns_with_every_port dns_with_nameserver_port : PolicyError
  dns_without_egress dns_with_unix_sockets : PolicyError

pub data Derived (A : Type 0) : Type 0 where
  derived : A → Derived A
  refused : PolicyError → Derived A

infixl 5 ◌>>=◌
abbrev pub ◌>>=◌ : {A B : Type 0} → Derived A → (A → Derived B) → Derived B
derived a >>= f = f a
refused e >>= f = refused e

-- The flags as they were parsed. `--allow-network` is absent, bare or with its ports.
pub record Flags : Type 0 where
  pub allow_read : List FilePath
  pub allow_write : List FilePath
  pub allow_exec : List FilePath
  pub network : Option (List ℕ)
  pub unix_sockets : Bool
  pub env : List Bytes
  pub dns_over_tcp : Bool
  pub dns : List Bytes

-- What the process asks its surroundings, and `current_root`, which judges the working directory.
pub record Surroundings : Type 0 where
  pub canonicalize : FilePath → Option FilePath
  pub vet : FilePath → Option VettedPath
  pub current_dir : Option FilePath
  pub owned : List OwnedPath
  pub current_root : List VettedPath → List OwnedPath → Derived VettedPath

abbrev standard_env_names : List Bytes
standard_env_names =
    codes "PATH"
    ∷ codes "HOME"
    ∷ codes "TERM"
    ∷ codes "LANG"
    ∷ codes "LC_ALL"
    ∷ codes "LC_CTYPE"
    ∷ codes "TZ"
    ∷ []

abbrev pub system_executable_paths : List FilePath
system_executable_paths =
    map components (codes "/usr" ∷ codes "/bin" ∷ codes "/lib" ∷ codes "/lib64" ∷ [])

abbrev resolver_files : List FilePath
resolver_files =
    map components (codes "/etc/hosts" ∷ codes "/etc/nsswitch.conf" ∷ codes "/etc/resolv.conf" ∷ [])

unfoldable pub fold_policy :
    {A : Type 0} → (A → SandboxPolicy → SandboxPolicy) → List A → SandboxPolicy → SandboxPolicy
fold_policy f [] p = p
fold_policy f (a ∷ xs) p = fold_policy f xs (f a p)

abbrev pub allow_standard_env : SandboxPolicy → SandboxPolicy
allow_standard_env p = fold_policy allow_env standard_env_names p

-- The variables that a policy imposes.
unfoldable pub imposes : SandboxPolicy → Bytes → Bool
imposes p n = p.dns_over_tcp && str_eq n (codes "RES_OPTIONS")

-- The flags on the network.
unfoldable pub open_network : Option (List ℕ) → SandboxPolicy → SandboxPolicy
open_network none p = p
open_network (some []) p = allow_network p
open_network (some (n ∷ ns)) p = fold_policy allow_network_port (n ∷ ns) p

-- Why the flags cannot bound which names resolve.
unfoldable pub dns_conflict : Flags → Option FilePath → Option PolicyError
dns_conflict g bound_file =
    if g.dns_over_tcp
    then some dns_with_resolver_hint
    else if g.unix_sockets
    then some dns_with_unix_sockets
    else conflict g.network
  where
    conflict : Option (List ℕ) → Option PolicyError
    conflict none = some dns_without_egress
    conflict (some []) = some dns_with_every_port
    conflict (some (n ∷ ns)) =
        if has_port (n ∷ ns) nameserver_port
        then some dns_with_nameserver_port
        else elim bound_file [ none ↦ none | some f ↦ some (dns_grants_bound_file f) ]

abbrev pub of_axis : Axis → Flags → List FilePath
of_axis read g = g.allow_read
of_axis write g = g.allow_write
of_axis read_execute g = g.allow_exec

unfoldable pub paths_given : Flags → Bool
paths_given g = any (λ axis. not (is_empty (of_axis axis g))) all_axes

-- What the loop over the paths carries.
pub record Granting : Type 0 where
  pub policy : SandboxPolicy
  pub bound_file : Option FilePath

module _ (s : Surroundings) where
  abbrev pub is_place : FilePath → Option FilePath → Bool
  is_place p none = false
  is_place p (some q) = path_eq q p

  -- `bound_by_resolver` of crates/sandbx-core/src/resolver.rs.
  abbrev pub is_resolver_file : FilePath → Bool
  is_resolver_file p = any (λ f. path_eq f p || is_place p (s.canonicalize f)) resolver_files

  abbrev pub bound_by_resolver : FilePath → FilePath → Bool
  bound_by_resolver typed judged = is_resolver_file typed || is_resolver_file judged

  abbrev pub resolved_over : FilePath → ℕ → List FilePath → FilePath
  resolved_over p depth [] = p
  resolved_over p depth (a ∷ xs) =
      let rest = resolved_over p (suc depth) xs in
      elim (s.canonicalize a) [
        | none ↦ rest
        | some base ↦
            join base (record { absolute = false; parts = drop (length p.parts - depth) p.parts })
      ]

  -- The deepest ancestor that resolves, with the rest of the path behind it.
  unfoldable pub resolved : FilePath → FilePath
  resolved p = resolved_over p 0 (ancestors p)

  abbrev pub overlaps : FilePath → OwnedPath → Bool
  overlaps p o = starts_with (resolved o.path) p || starts_with p (resolved o.path)

  abbrev pub first_overlap : FilePath → List OwnedPath → Option OwnedPath
  first_overlap p [] = none
  first_overlap p (o ∷ os) = let rest = first_overlap p os in if overlaps p o then some o else rest

  unfoldable pub reaches_owned : FilePath → Option OwnedPath
  reaches_owned p = first_overlap p s.owned

  unfoldable pub absolute : FilePath → Derived FilePath
  absolute p = if p.absolute then derived p else elim s.current_dir [
    | none ↦ refused (unresolvable_grant p)
    | some cwd ↦ derived (join cwd p)
  ]

  abbrev pub judged : FilePath → Option VettedPath → FilePath
  judged typed none = resolved typed
  judged typed (some v) = components v.path

  abbrev pub noted : FilePath → FilePath → FilePath → Option FilePath → Option FilePath
  noted p typed j (some f) = some f
  noted p typed j none = if bound_by_resolver typed j then some p else none

  unfoldable pub granted_on_axis : Axis → VettedPath → SandboxPolicy → SandboxPolicy
  granted_on_axis axis v p =
      if (grants axis).writes then grant read v (grant axis v p) else grant axis v p

  abbrev pub vetted_or : FilePath → Option VettedPath → Derived VettedPath
  vetted_or p none = refused (unpinnable_grant p)
  vetted_or p (some v) = derived v

  abbrev pub unowned_or : FilePath → Option OwnedPath → Derived VettedPath → Derived VettedPath
  unowned_or p (some o) v = refused (grant_reaches_owned p o)
  unowned_or p none v = v

  -- What of a typed path is granted: reaching an owned path is looked at before the vet.
  unfoldable pub granted_object : FilePath → FilePath → Derived VettedPath
  granted_object p typed =
      unowned_or p (reaches_owned (judged typed (s.vet typed))) (vetted_or p (s.vet typed))

  unfoldable pub grant_path : Axis → FilePath → Granting → Derived Granting
  grant_path axis p t = absolute p >>= λ typed. granted_object p typed >>= λ v. derived (record {
    policy = granted_on_axis axis v t.policy;
    bound_file = noted p typed (judged typed (s.vet typed)) t.bound_file;
  })

  unfoldable pub grant_all : Axis → List FilePath → Granting → Derived Granting
  grant_all axis [] t = derived t
  grant_all axis (p ∷ ps) t = grant_path axis p t >>= λ u. grant_all axis ps u

  unfoldable pub grant_axes : Flags → List Axis → Granting → Derived Granting
  grant_axes g [] t = derived t
  grant_axes g (axis ∷ axes) t = grant_all axis (of_axis axis g) t >>= λ u. grant_axes g axes u

  abbrev pub push_vetted : Option VettedPath → SandboxPolicy → SandboxPolicy
  push_vetted none p = p
  push_vetted (some v) p = grant read_execute v p

  abbrev pub allow_system_executables : SandboxPolicy → SandboxPolicy
  allow_system_executables p =
      fold_policy (λ f q. push_vetted (s.vet f) q) system_executable_paths p

  abbrev pub base : SandboxPolicy
  base = allow_standard_env (allow_system_executables default_policy)

  -- The working directory stands in only where no path was given.
  unfoldable pub rooted : Flags → Derived SandboxPolicy
  rooted g =
      if paths_given g
      then derived base
      else s.current_root base.executable s.owned >>= λ root.
          derived (grant write root (grant read root base))

  -- The flags behind the paths, in their order.
  unfoldable pub widened : Flags → SandboxPolicy → SandboxPolicy
  widened g p =
      let q = open_network g.network (fold_policy allow_env g.env p) in
      let r = if g.unix_sockets then allow_unix_sockets q else q in
      if g.dns_over_tcp then hint_dns_over_tcp r else r

  abbrev pub or_refused : Option PolicyError → SandboxPolicy → Derived SandboxPolicy
  or_refused none p = derived p
  or_refused (some e) p = refused e

  abbrev pub first_imposed : SandboxPolicy → List Bytes → Option PolicyError
  first_imposed p [] = none
  first_imposed p (n ∷ ns) =
      let rest = first_imposed p ns in if imposes p n then some (imposed_variable n) else rest

  unfoldable pub bounded : Flags → Granting → Derived SandboxPolicy
  bounded g t =
      or_refused (if is_empty g.dns then none else dns_conflict g t.bound_file)
        (fold_policy allow_dns g.dns (widened g t.policy))

  unfoldable pub policy : Flags → Derived SandboxPolicy
  policy g = rooted g >>= λ p.
      grant_axes g all_axes (record { policy = p; bound_file = none }) >>= λ t.
      bounded g t >>= λ q. or_refused (first_imposed q g.env) q
