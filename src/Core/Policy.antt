-- ===== src/Core/Policy.antt =====
-- crates/sandbx-core/src/sandbox_policy.rs and the data of vetted_path.rs: what a sandboxed process is
-- allowed, and the builders that widen it. A path and a name are bytes of UTF-8.
pub mod Built
use sandbx.Common.{
  ℕ, ◌+◌, Bool, true, false, not, ◌&&◌, ◌||◌, ◌==◌, leb, List, [], ◌∷◌, ◌++◌, map, any, Option,
  none, some, Bytes, codes, str_eq, contains, if◌then◌else◌, is_empty, length,
}

pub record ObjectId : Type 0 where
  pub dev : ℕ
  pub ino : ℕ

pub record VettedPath : Type 0 where
  pub path : Bytes
  pub object : ObjectId

pub data Axis : Type 0 where
  read write read_execute : Axis

pub record Grants : Type 0 where
  pub reads : Bool
  pub writes : Bool
  pub executes : Bool

abbrev pub all_axes : List Axis
all_axes = read ∷ write ∷ read_execute ∷ []

unfoldable pub grants : Axis → Grants
grants read = record { reads = true; writes = false; executes = false }
grants write = record { reads = false; writes = true; executes = false }
grants read_execute = record { reads = true; writes = false; executes = true }

pub data NetworkPolicy : Type 0 where
  denied any_port : NetworkPolicy
  ports : List ℕ → NetworkPolicy

pub record SandboxPolicy : Type 0 where
  pub readable : List VettedPath
  pub writable : List VettedPath
  pub executable : List VettedPath
  pub network : NetworkPolicy
  pub unix_sockets : Bool
  pub env : List Bytes
  pub dns_over_tcp : Bool
  pub dns_names : List Bytes

-- `SandboxPolicy::default()`.
abbrev pub default_policy : SandboxPolicy
default_policy = record {
  readable = [];
  writable = [];
  executable = [];
  network = denied;
  unix_sockets = false;
  env = [];
  dns_over_tcp = false;
  dns_names = [];
}

pub record GrantedPath : Type 0 where
  pub axis : Axis
  pub vetted : VettedPath

unfoldable pub paths : Axis → SandboxPolicy → List VettedPath
paths read p = p.readable
paths write p = p.writable
paths read_execute p = p.executable

abbrev pub granted_on : Axis → List VettedPath → List GrantedPath
granted_on axis [] = []
granted_on axis (v ∷ vs) = record { axis = axis; vetted = v } ∷ granted_on axis vs

unfoldable pub granted_from : List Axis → SandboxPolicy → List GrantedPath
granted_from [] p = []
granted_from (axis ∷ axes) p = granted_on axis (paths axis p) ++ granted_from axes p

unfoldable pub granted_paths : SandboxPolicy → List GrantedPath
granted_paths p = granted_from all_axes p

unfoldable pub grant : Axis → VettedPath → SandboxPolicy → SandboxPolicy
grant read v p = record p { readable = p.readable ++ v ∷ [] }
grant write v p = record p { writable = p.writable ++ v ∷ [] }
grant read_execute v p = record p { executable = p.executable ++ v ∷ [] }

abbrev pub has_port : List ℕ → ℕ → Bool
has_port ps port = any (λ p. p == port) ps

unfoldable pub allow_network : SandboxPolicy → SandboxPolicy
allow_network p = record p { network = any_port }

unfoldable pub with_port : ℕ → NetworkPolicy → NetworkPolicy
with_port port denied = ports (port ∷ [])
with_port port any_port = any_port
with_port port (ports ps) = ports (if has_port ps port then ps else ps ++ port ∷ [])

unfoldable pub allow_network_port : ℕ → SandboxPolicy → SandboxPolicy
allow_network_port port p = if port == 0 then p else record p { network = with_port port p.network }

unfoldable pub allow_unix_sockets : SandboxPolicy → SandboxPolicy
allow_unix_sockets p = record p { unix_sockets = true }

unfoldable pub hint_dns_over_tcp : SandboxPolicy → SandboxPolicy
hint_dns_over_tcp p = record p { dns_over_tcp = true }

abbrev pub has_byte : ℕ → Bytes → Bool
has_byte b s = any (λ c. c == b) s

-- A name that `allow_env` carries, with no `=` and no NUL.
unfoldable pub is_env_name : Bytes → Bool
is_env_name n = not (is_empty n) && not (has_byte 61 n) && not (has_byte 0 n)

unfoldable pub allow_env : Bytes → SandboxPolicy → SandboxPolicy
allow_env n p = if is_env_name n then record p { env = p.env ++ n ∷ [] } else p

abbrev begins : Bytes → Bytes → Bool
begins s [] = true
begins [] (d ∷ ds) = false
begins (c ∷ cs) (d ∷ ds) = (c == d) && begins cs ds

-- A space, or the bytes of one that is not ASCII.
abbrev pub begins_space : ℕ → Bytes → Bool
begins_space c cs =
    (leb 9 c && leb c 13)
    || c == 32
    || (c == 0xC2 && (begins cs (0x85 ∷ []) || begins cs (0xA0 ∷ [])))
    || (c == 0xE1 && begins cs (0x9A ∷ 0x80 ∷ []))
    || (c == 0xE2
        && (any (λ b. begins cs (0x80 ∷ b ∷ []))
              (0x80 ∷ 0x81 ∷ 0x82 ∷ 0x83 ∷ 0x84 ∷ 0x85 ∷ 0x86 ∷ 0x87 ∷ 0x88 ∷ 0x89 ∷ 0x8A ∷ 0xA8
                ∷ 0xA9 ∷ 0xAF ∷ [])
            || begins cs (0x81 ∷ 0x9F ∷ [])))
    || (c == 0xE3 && begins cs (0x80 ∷ 0x80 ∷ []))

-- `chars().any(char::is_whitespace)`.
unfoldable pub has_whitespace : Bytes → Bool
has_whitespace [] = false
has_whitespace (c ∷ cs) = let rest = has_whitespace cs in begins_space c cs || rest

abbrev pub dns_name_limit : ℕ
dns_name_limit = 253

unfoldable pub is_resolvable_name : Bytes → Bool
is_resolvable_name n =
    not (is_empty n)
    && leb (length n) dns_name_limit
    && not (has_byte 35 n)
    && not (has_byte 0 n)
    && not (has_whitespace n)

unfoldable pub allow_dns : Bytes → SandboxPolicy → SandboxPolicy
allow_dns n p =
    if is_resolvable_name n && not (contains n p.dns_names)
    then record p { dns_names = p.dns_names ++ n ∷ [] }
    else p

unfoldable pub bounds_resolution : SandboxPolicy → Bool
bounds_resolution p = not (is_empty p.dns_names)

abbrev pub nameserver_port : ℕ
nameserver_port = 53

abbrev pub unbounded_network : NetworkPolicy → Option Bytes
unbounded_network any_port =
    some (codes "every port is allowlisted, so the command reaches a nameserver by IP literal")
unbounded_network (ports ps) =
    if has_port ps nameserver_port
    then some (codes "port 53 is allowlisted, so a nameserver answers for every name")
    else none
unbounded_network denied = none

unfoldable pub unbounded_resolution : SandboxPolicy → Option Bytes
unbounded_resolution p =
    if not (bounds_resolution p)
    then none
    else if p.dns_over_tcp
    then some
        (codes "a name allowlist asks no nameserver and `--dns-over-tcp` asks one for every name")
    else if p.unix_sockets
    then some (codes "a local resolver answers over a pathname socket, asked before nsswitch")
    else unbounded_network p.network
