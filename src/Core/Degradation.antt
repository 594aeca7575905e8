-- ===== src/Core/Degradation.antt =====
-- crates/sandbx-core/src/degradation.rs and the labels of helper_refusal.rs: what the helper reports to its
-- parent, a line each. A string is the list of its code points.
pub mod RoundTrip
use sandbx.Common.{
  ℕ, zero, suc, Bool, true, false, not, ◌&&◌, List, [], ◌∷◌, ◌++◌, map, Option, none, some, Bytes,
  codes, str_eq, ◌==◌, if◌then◌else◌, is_empty, retain, split_once,
}

pub data Degradation : Type 0 where
  capability_bounding_set userns_identity_map unresolved_dns_name : Degradation

abbrev pub all_degradations : List Degradation
all_degradations = capability_bounding_set ∷ userns_identity_map ∷ unresolved_dns_name ∷ []

unfoldable pub step_label : Degradation → Bytes
step_label capability_bounding_set = codes "capability_bounding_set"
step_label userns_identity_map = codes "userns_identity_map"
step_label unresolved_dns_name = codes "unresolved_dns_name"

pub data HelperRefusal : Type 0 where
  bad_helper_args landlock grant_redirected grant_replaced seccomp namespace_setup_failed :
      HelperRefusal
  process_hardening inner_stage_failed exec_failed pin_mismatch pin_unreadable : HelperRefusal
  pinned_script unsupported : HelperRefusal

abbrev pub all_refusals : List HelperRefusal
all_refusals =
    bad_helper_args ∷ landlock ∷ grant_redirected ∷ grant_replaced ∷ seccomp
    ∷ namespace_setup_failed ∷ process_hardening ∷ inner_stage_failed ∷ exec_failed ∷ pin_mismatch
    ∷ pin_unreadable ∷ pinned_script ∷ unsupported ∷ []

unfoldable pub refusal_label : HelperRefusal → Bytes
refusal_label bad_helper_args = codes "bad_helper_args"
refusal_label landlock = codes "landlock"
refusal_label grant_redirected = codes "grant_redirected"
refusal_label grant_replaced = codes "grant_replaced"
refusal_label seccomp = codes "seccomp"
refusal_label namespace_setup_failed = codes "namespace_setup_failed"
refusal_label process_hardening = codes "process_hardening"
refusal_label inner_stage_failed = codes "inner_stage_failed"
refusal_label exec_failed = codes "exec_failed"
refusal_label pin_mismatch = codes "pin_mismatch"
refusal_label pin_unreadable = codes "pin_unreadable"
refusal_label pinned_script = codes "pinned_script"
refusal_label unsupported = codes "unsupported"

-- `into_iter().find(..)`.
abbrev pub find_by : {A : Type 0} → (A → Bool) → List A → Option A
find_by p [] = none
find_by p (x ∷ xs) = if p x then some x else find_by p xs

unfoldable pub step_from : Bytes → Option Degradation
step_from l = find_by (λ s. str_eq (step_label s) l) all_degradations

unfoldable pub refusal_from : Bytes → Option HelperRefusal
refusal_from l = find_by (λ r. str_eq (refusal_label r) l) all_refusals

pub record Degraded : Type 0 where
  pub step : Degradation
  pub detail : Bytes

pub data Report : Type 0 where
  degraded : Degraded → Report
  failed : HelperRefusal → Report

abbrev pub detail_limit : ℕ
detail_limit = 256

-- `Degradation::ALL.len() + 1`.
abbrev pub record_limit : ℕ
record_limit = 4

abbrev pub take {ℓ} : {A : Type ℓ} → ℕ → List A → List A
take zero xs = []
take (suc n) [] = []
take (suc n) (x ∷ xs) = x ∷ take n xs

-- What crosses of a detail.
abbrev pub cleaned : Bytes → Bytes
cleaned detail = take detail_limit (retain (λ c. not (c == 10) && not (c == 9)) detail)

unfoldable pub encode : List Degraded → Bytes
encode [] = []
encode (d ∷ ds) = step_label d.step ++ 9 ∷ (cleaned d.detail ++ 10 ∷ encode ds)

unfoldable pub encode_refusal : HelperRefusal → Bytes
encode_refusal r = refusal_label r ++ 9 ∷ 10 ∷ []

-- The lines that are ended, and what stands behind the last of them.
abbrev pub pieces : Bytes → List Bytes × Bytes
pieces [] = ([], [])
pieces (c ∷ cs) =
    let (ended, rest) = pieces cs in
    if c == 10
    then ([] ∷ ended, rest)
    else elim ended [ [] ↦ ([], c ∷ rest) | l ∷ ls ↦ ((c ∷ l) ∷ ls, rest) ]

abbrev pub strip_return : Bytes → Bytes
strip_return [] = []
strip_return (c ∷ []) = if c == 13 then [] else c ∷ []
strip_return (c ∷ d ∷ cs) = c ∷ strip_return (d ∷ cs)

-- `str::lines`.
abbrev pub lines : Bytes → List Bytes
lines t =
    let (ended, rest) = pieces t in
    map strip_return ended ++ (if is_empty rest then [] else rest ∷ [])

abbrev pub refused_as : Option HelperRefusal → Option Report
refused_as none = none
refused_as (some r) = some (failed r)

abbrev pub reported_as : Option Degradation → Bytes → Bytes → Option Report
reported_as (some step) label detail = some (degraded (record { step = step; detail = detail }))
reported_as none label detail = refused_as (refusal_from label)

abbrev pub read_parts : Option (Bytes × Bytes) → Option Report
read_parts none = none
read_parts (some (label, detail)) = reported_as (step_from label) label detail

abbrev pub filter_map : List (Option Report) → List Report
filter_map [] = []
filter_map (none ∷ rs) = filter_map rs
filter_map (some r ∷ rs) = r ∷ filter_map rs

unfoldable pub read_line : Bytes → Option Report
read_line line = read_parts (split_once 9 line)

unfoldable pub decode : Bytes → List Report
decode channel = take record_limit (filter_map (map read_line (lines channel)))
