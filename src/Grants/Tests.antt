-- ===== src/Grants/Tests.antt =====
-- The flags of a run that writes one directory, runs what is in it and resolves one name.
use sandbx.Common.{false, [], ◌∷◌, none, some, codes, if◌then◌else◌, ◌≡◌, refl}
use sandbx.Core.FilePath.{
  FilePath, components, path_eq, starts_with, strip_prefix, strip_parts, ancestors, join,
}
use sandbx.Core.Policy.{
  VettedPath, SandboxPolicy, ports, grants, grant, allow_network_port, with_port, allow_env,
  is_env_name, allow_dns, is_resolvable_name, has_whitespace,
}
use sandbx.Grants.{
  OwnedPath, no_default, grant_reaches_owned, derived, refused, Flags, Surroundings, fold_policy,
  imposes, open_network, dns_conflict, paths_given, resolved, reaches_owned, absolute,
  granted_on_axis, granted_object, grant_path, grant_all, grant_axes, rooted, widened, bounded,
  policy,
}
use sandbx.Grants.Whole.{IsSound, policy-IsSound}

abbrev work : VettedPath
work = record { path = codes "/work"; object = record { dev = 1; ino = 7 } }

abbrev key : OwnedPath
key = record { path = components (codes "/home/key"); holds = codes "the provider key it spends" }

abbrev surroundings : Surroundings
surroundings = record {
  canonicalize = λ p. none;
  vet = λ p. if path_eq p (components (codes "/work")) then some work else none;
  current_dir = none;
  owned = key ∷ [];
  current_root = λ granted owned. refused no_default;
}

abbrev flags : FilePath → Flags
flags path = record {
  allow_read = [];
  allow_write = path ∷ [];
  allow_exec = path ∷ [];
  network = some (443 ∷ []);
  unix_sockets = false;
  env = codes "TOKEN" ∷ [];
  dns_over_tcp = false;
  dns = codes "a.example" ∷ [];
}

abbrev described : SandboxPolicy
described = record {
  readable = work ∷ [];
  writable = work ∷ [];
  executable = work ∷ [];
  network = ports (443 ∷ []);
  unix_sockets = false;
  env =
      codes "PATH"
      ∷ codes "HOME"
      ∷ codes "TERM"
      ∷ codes "LANG"
      ∷ codes "LC_ALL"
      ∷ codes "LC_CTYPE"
      ∷ codes "TZ"
      ∷ codes "TOKEN"
      ∷ [];
  dns_over_tcp = false;
  dns_names = codes "a.example" ∷ [];
}

describes : policy surroundings (flags (components (codes "/work"))) ≡ derived described
unfolding components path_eq starts_with strip_prefix strip_parts ancestors grants grant
    allow_network_port with_port allow_env is_env_name allow_dns is_resolvable_name has_whitespace
    fold_policy imposes open_network dns_conflict paths_given resolved reaches_owned absolute
    granted_on_axis granted_object grant_path grant_all grant_axes rooted widened bounded policy
    join
describes = refl

-- A directory that holds the key is refused, whether it can be opened or not.
refuses_owner :
    policy surroundings (flags (components (codes "/home")))
    ≡ refused (grant_reaches_owned (components (codes "/home")) key)
unfolding components path_eq starts_with strip_prefix strip_parts ancestors paths_given resolved
    reaches_owned absolute granted_object grant_path grant_all grant_axes rooted policy fold_policy
    allow_env is_env_name
refuses_owner = refl

policy-IsSound_example : IsSound surroundings (flags (components (codes "/work"))) described
policy-IsSound_example =
    policy-IsSound surroundings (flags (components (codes "/work"))) described describes
