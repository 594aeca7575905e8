-- ===== src/Core/HelperArgs/Flags.antt =====
-- What the helper reads of each flag that the harness writes.
use sandbx.Common.{
  split_once, ℕ, ◌^◌, Bool, true, false, ◌==◌, ltb, leb, ltb→lt, List, [], ◌∷◌, ◌++◌, ◌≡◌, refl, ap,
  ◌∙◌, Option, some, Bytes, codes, all, contains, is_empty, if◌then◌else◌, &&_true, arith, str_eq,
  any-append,
}
use mathlib.Core.List.{append-nil, append_assoc}
use sandbx.Core.Decimal.{decimal, parse_uint, parse_uint-decimal, decimal-digits, is_digit}
use sandbx.Core.Policy.{
  VettedPath, Axis, read, write, read_execute, NetworkPolicy, denied, any_port, ports,
  SandboxPolicy, granted_on, grant, allow_network, with_port, allow_network_port,
  allow_unix_sockets, hint_dns_over_tcp, is_env_name, allow_env, allow_dns, has_byte, has_port,
  is_resolvable_name,
}
use sandbx.Core.Policy.Built.{
  is_pinned, is_port, distinct_ports, distinct_names, sound_network, str_eq_sym, push-not-empty,
}
use sandbx.Core.HelperArgs.{
  PathText, object_token, parse_object, u64_max, path_flag, axis_for, encode_paths, encode_each,
  encode_ports, encode_network, a_flag, a_port, an_env, a_dns_name, a_path, an_object, Reading, on,
  take_flag, take_as, decode_from,
}

split_once-append :
    (xs ys : Bytes) → all is_digit xs ≡ true → split_once 58 (xs ++ 58 ∷ ys) ≡ some (xs, ys)
split_once-append [] ys a = refl
split_once-append (x ∷ xs) ys a =
    let other : (x == 58) ≡ false = ground (arith, a) in
    let more : all is_digit xs ≡ true = ground (arith, a) in
    rw other (rw (split_once-append xs ys more) refl)

number : (n : ℕ) → ltb n (2 ^ 64) ≡ true → parse_uint u64_max (decimal n) ≡ some n
number n l =
    let less = ltb→lt n (2 ^ 64) l in
    let bound : leb n u64_max ≡ true = ground (arith, less) in
    parse_uint-decimal u64_max n bound less

pub parse_object-object_token :
    (v : VettedPath) → is_pinned v ≡ true → parse_object (object_token v.object) ≡ some v.object
unfolding parse_object object_token
parse_object-object_token v e =
    let (d, i) = &&_true (ltb v.object.dev (2 ^ 64)) (ltb v.object.ino (2 ^ 64)) e in
    rw
      (
        parse_object,
        split_once-append (decimal v.object.dev) (decimal v.object.ino)
            (decimal-digits v.object.dev),
        number v.object.dev d,
        number v.object.ino i,
      )
      refl

pub step_on :
    (arg : Bytes) (rest : List Bytes) (r r' : Reading)
    → take_as r.expecting arg r ≡ on r'
    → decode_from (arg ∷ rest) r ≡ decode_from rest r'
unfolding decode_from
step_on arg rest r r' e = rw (decode_from, e) refl

-- Between two flags.
abbrev pub at : SandboxPolicy → Option (List ℕ) → Reading
at p pin = record { policy = p; pin = pin; expecting = a_flag }

abbrev pub Reads : List Bytes → SandboxPolicy → SandboxPolicy → Type 0
Reads xs p p' =
    (pin : Option (List ℕ)) (tail : List Bytes)
    → decode_from (xs ++ tail) (at p pin) ≡ decode_from tail (at p' pin)

-- Paths.
abbrev pub grant_all : Axis → List VettedPath → SandboxPolicy → SandboxPolicy
grant_all axis [] p = p
grant_all axis (v ∷ vs) p = grant_all axis vs (grant axis v p)

take_path_flag :
    (axis : Axis) (r : Reading)
    → take_flag (path_flag axis) r ≡ on (record r { expecting = a_path axis })
unfolding take_flag path_flag axis_for
take_path_flag read r = refl
take_path_flag write r = refl
take_path_flag read_execute r = refl

pub Reads-paths :
    (text : PathText) (axis : Axis) (vs : List VettedPath) (p : SandboxPolicy)
    → all is_pinned vs ≡ true
    → all (λ v. text.is_unicode v.path) vs ≡ true
    → Reads (encode_paths text (granted_on axis vs)) p (grant_all axis vs p)
unfolding encode_paths take_as
Reads-paths text axis [] p a u pin tail = refl
Reads-paths text axis (v ∷ vs) p a u pin tail =
    let (h, hs) = &&_true (is_pinned v) (all is_pinned vs) a in
    let (k, ks) = &&_true (text.is_unicode v.path) (all (λ w. text.is_unicode w.path) vs) u in
    step_on _ _ (at p pin) _ (take_path_flag axis (at p pin))
    ∙ step_on _ _ (record { policy = p; pin = pin; expecting = a_path axis })
        (record { policy = p; pin = pin; expecting = an_object axis v.path })
        (ap (λ path. on (record { policy = p; pin = pin; expecting = an_object axis path }))
          (text.display-unicode v.path k))
    ∙ step_on _ _ (record { policy = p; pin = pin; expecting = an_object axis v.path })
        (at (grant axis v p) pin) (rw (parse_object-object_token v h) refl)
    ∙ Reads-paths text axis vs (grant axis v p) hs ks pin tail

contains-middle :
    (m : Bytes) (ms : List Bytes) (n : Bytes) (ns : List Bytes)
    → contains m (ms ++ n ∷ ns) ≡ false
    → str_eq m n ≡ false
contains-middle m [] n ns h = ground (arith, h)
contains-middle m (k ∷ ms) n ns h = ground (arith, h, contains-middle m ms n ns)

env_name_plain : (n : Bytes) → is_env_name n ≡ true → has_byte 61 n ≡ false
unfolding is_env_name
env_name_plain n h = ground (arith, h)

module _ (rs ws xs : List VettedPath) where
  abbrev pub made : NetworkPolicy → Bool → List Bytes → Bool → List Bytes → SandboxPolicy
  made n u e d ns = record {
    readable = rs;
    writable = ws;
    executable = xs;
    network = n;
    unix_sockets = u;
    env = e;
    dns_over_tcp = d;
    dns_names = ns;
  }

  middle_port :
      (seen : List ℕ) (p : ℕ) (ps : List ℕ)
      → distinct_ports (seen ++ p ∷ ps) ≡ true
      → has_port seen p ≡ false
  middle_port [] p ps h = refl
  middle_port (d ∷ seen) p ps h =
      ground (arith, h, any-append (λ x. x == d) seen (p ∷ ps), middle_port seen p ps)

  middle_name :
      (seen : List Bytes) (n : Bytes) (ns : List Bytes)
      → distinct_names (seen ++ n ∷ ns) ≡ true
      → contains n seen ≡ false
  middle_name [] n ns h = refl
  middle_name (d ∷ seen) n ns h =
      ground (arith, h, contains-middle d seen n ns, str_eq_sym d n, middle_name seen n ns)

  port_decimal :
      (p : ℕ) → is_port p ≡ true → (parse_uint 65535 (decimal p) ≡ some p) × ((p == 0) ≡ false)
  port_decimal p h =
      let b : leb p 65535 ≡ true = ground (arith, h) in
      (parse_uint-decimal 65535 p b (ground (arith, b)), ground (arith, h))

  module _ (u : Bool) (e : List Bytes) (d : Bool) (ns : List Bytes) where
    Reads-port :
        (p : ℕ) (n n' : NetworkPolicy) (pin : Option (List ℕ)) (tail : List Bytes)
        → is_port p ≡ true
        → with_port p n ≡ n'
        → decode_from (codes "--allow-network-port" ∷ decimal p ∷ tail) (at (made n u e d ns) pin)
          ≡ decode_from tail (at (made n' u e d ns) pin)
    unfolding take_as take_flag allow_network_port
    Reads-port p n n' pin tail h w =
        let (v, z) = port_decimal p h in
        step_on _ _ (at (made n u e d ns) pin) _ refl
        ∙ step_on _ _ (record { policy = made n u e d ns; pin = pin; expecting = a_port })
            (at (made n' u e d ns) pin) (rw v (rw z (ap (λ m. on (at (made m u e d ns) pin)) w)))

    Reads-ports :
        (seen ps : List ℕ)
        → all is_port ps ≡ true
        → distinct_ports (seen ++ ps) ≡ true
        → is_empty seen ≡ false
        → Reads (encode_ports ps) (made (ports seen) u e d ns) (made (ports (seen ++ ps)) u e d ns)
    unfolding encode_ports with_port
    Reads-ports seen [] a q k pin tail = rw (append-nil seen) refl
    Reads-ports seen (p ∷ ps) a q k pin tail =
        let (h, hs) = &&_true (is_port p) (all is_port ps) a in
        let assoc : (seen ++ p ∷ []) ++ ps ≡ seen ++ p ∷ ps = append_assoc seen (p ∷ []) ps in
        Reads-port p (ports seen) (ports (seen ++ p ∷ [])) pin _ h
          (rw (middle_port seen p ps q) refl)
        ∙ Reads-ports (seen ++ p ∷ []) ps hs (ap distinct_ports assoc ∙ q) (push-not-empty seen p)
            pin tail
        ∙ ap (λ qs. decode_from tail (at (made (ports qs) u e d ns) pin)) assoc

    pub Reads-network :
        (n : NetworkPolicy)
        → sound_network n ≡ true
        → Reads (encode_network n) (made denied u e d ns) (made n u e d ns)
    unfolding encode_network encode_ports with_port take_flag take_as allow_network
    Reads-network denied s pin tail = refl
    Reads-network any_port s pin tail = step_on _ _ (at (made denied u e d ns) pin) _ refl
    Reads-network (ports []) s pin tail = cc s
    Reads-network (ports (p ∷ ps)) s pin tail =
        Reads-port p denied (ports (p ∷ [])) pin _ (ground (arith, s)) refl
        ∙ Reads-ports (p ∷ []) ps (ground (arith, s)) (ground (arith, s)) refl pin tail

  pub Reads-unix :
      (n : NetworkPolicy) (u : Bool)
      → Reads
          (if u then codes "--allow-unix-sockets" ∷ [] else [])
          (made n false [] false [])
          (made n u [] false [])
  unfolding take_flag take_as allow_unix_sockets
  Reads-unix n true pin tail = step_on _ _ (at (made n false [] false []) pin) _ refl
  Reads-unix n false pin tail = refl

  pub Reads-hint :
      (n : NetworkPolicy) (u d : Bool)
      → Reads
          (if d then codes "--dns-over-tcp" ∷ [] else [])
          (made n u [] false [])
          (made n u [] d [])
  unfolding take_flag take_as hint_dns_over_tcp
  Reads-hint n u true pin tail = step_on _ _ (at (made n u [] false []) pin) _ refl
  Reads-hint n u false pin tail = refl

  module _ (n : NetworkPolicy) (u d : Bool) where
    pub Reads-env :
        (seen es : List Bytes)
        → all is_env_name es ≡ true
        → Reads (encode_each (codes "--env") es) (made n u seen d []) (made n u (seen ++ es) d [])
    unfolding encode_each take_as take_flag allow_env
    Reads-env seen [] a pin tail = rw (append-nil seen) refl
    Reads-env seen (e ∷ es) a pin tail =
        let (h, hs) = &&_true (is_env_name e) (all is_env_name es) a in
        step_on _ _ (at (made n u seen d []) pin) _ refl
        ∙ step_on _ _ (record { policy = made n u seen d []; pin = pin; expecting = an_env })
            (at (made n u (seen ++ e ∷ []) d []) pin) (rw (env_name_plain e h) (rw h refl))
        ∙ Reads-env (seen ++ e ∷ []) es hs pin tail
        ∙ ap (λ ks. decode_from tail (at (made n u ks d []) pin)) (append_assoc seen (e ∷ []) es)

    pub Reads-names :
        (e seen ns : List Bytes)
        → all is_resolvable_name ns ≡ true
        → distinct_names (seen ++ ns) ≡ true
        → Reads
            (encode_each (codes "--allow-dns-name") ns)
            (made n u e d seen)
            (made n u e d (seen ++ ns))
    unfolding encode_each take_as take_flag allow_dns
    Reads-names e seen [] a q pin tail = rw (append-nil seen) refl
    Reads-names e seen (m ∷ ns) a q pin tail =
        let (h, hs) = &&_true (is_resolvable_name m) (all is_resolvable_name ns) a in
        let assoc : (seen ++ m ∷ []) ++ ns ≡ seen ++ m ∷ ns = append_assoc seen (m ∷ []) ns in
        step_on _ _ (at (made n u e d seen) pin) _ refl
        ∙ step_on _ _ (record { policy = made n u e d seen; pin = pin; expecting = a_dns_name })
            (at (made n u e d (seen ++ m ∷ [])) pin) (rw h (rw (middle_name seen m ns q) refl))
        ∙ Reads-names e (seen ++ m ∷ []) ns hs (ap distinct_names assoc ∙ q) pin tail
        ∙ ap (λ ks. decode_from tail (at (made n u e d ks) pin)) assoc
