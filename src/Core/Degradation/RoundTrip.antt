-- ===== src/Core/Degradation/RoundTrip.antt =====
-- Reading the records that the helper wrote.
use sandbx.Common.{
  ℕ, zero, suc, Bool, true, false, not, ◌&&◌, ◌==◌, List, [], ◌∷◌, ◌++◌, map, ◌≡◌, refl, sym, ap,
  ◌∙◌, none, some, Bytes, all, retain, split_once, split_once-append, arith, all-retain, all-append,
}
use mathlib.Core.List.{append_assoc}
use sandbx.Core.Degradation.{
  Degradation, capability_bounding_set, userns_identity_map, unresolved_dns_name, step_label,
  HelperRefusal, bad_helper_args, landlock, grant_redirected, grant_replaced, seccomp,
  namespace_setup_failed, process_hardening, inner_stage_failed, exec_failed, pin_mismatch,
  pin_unreadable, pinned_script, unsupported, refusal_label, step_from, refusal_from, Degraded,
  Report, degraded, failed, detail_limit, record_limit, take, cleaned, encode, encode_refusal,
  pieces, strip_return, lines, read_parts, filter_map, read_line, decode,
}

-- Neither a tab nor an end of a line.
abbrev is_kept : ℕ → Bool
is_kept c = not (c == 10) && not (c == 9)

abbrev is_flat : ℕ → Bool
is_flat c = not (c == 10)

step_label-kept : (s : Degradation) → all is_kept (step_label s) ≡ true
unfolding step_label
step_label-kept capability_bounding_set = refl
step_label-kept userns_identity_map = refl
step_label-kept unresolved_dns_name = refl

step_from-step_label : (s : Degradation) → step_from (step_label s) ≡ some s
unfolding step_from step_label
step_from-step_label capability_bounding_set = refl
step_from-step_label userns_identity_map = refl
step_from-step_label unresolved_dns_name = refl

abbrev Distinct : HelperRefusal → Type 0
Distinct r =
    (all is_kept (refusal_label r) ≡ true)
    × (step_from (refusal_label r) ≡ none)
    × (refusal_from (refusal_label r) ≡ some r)

-- The labels of refusals are apart from each other, and from those of steps.
refusal_label-Distinct : (r : HelperRefusal) → Distinct r
unfolding refusal_label step_from step_label refusal_from
refusal_label-Distinct bad_helper_args = (refl, refl, refl)
refusal_label-Distinct landlock = (refl, refl, refl)
refusal_label-Distinct grant_redirected = (refl, refl, refl)
refusal_label-Distinct grant_replaced = (refl, refl, refl)
refusal_label-Distinct seccomp = (refl, refl, refl)
refusal_label-Distinct namespace_setup_failed = (refl, refl, refl)
refusal_label-Distinct process_hardening = (refl, refl, refl)
refusal_label-Distinct inner_stage_failed = (refl, refl, refl)
refusal_label-Distinct exec_failed = (refl, refl, refl)
refusal_label-Distinct pin_mismatch = (refl, refl, refl)
refusal_label-Distinct pin_unreadable = (refl, refl, refl)
refusal_label-Distinct pinned_script = (refl, refl, refl)
refusal_label-Distinct unsupported = (refl, refl, refl)

all-take : (n : ℕ) (t : Bytes) → all is_kept t ≡ true → all is_kept (take n t) ≡ true
all-take zero t h = refl
all-take (suc n) [] h = refl
all-take (suc n) (c ∷ cs) h = ground (arith, h, all-take n cs)

cleaned-kept : (t : Bytes) → all is_kept (cleaned t) ≡ true
cleaned-kept t = all-take detail_limit (retain is_kept t) (all-retain is_kept t)

pieces-append :
    (xs ys : Bytes)
    → all is_flat xs ≡ true
    → pieces (xs ++ 10 ∷ ys) ≡ (xs ∷ (pieces ys).0, (pieces ys).1)
pieces-append [] ys h = refl
pieces-append (x ∷ xs) ys h =
    let other : (x == 10) ≡ false = ground (arith, h) in
    let more : all is_flat xs ≡ true = ground (arith, h) in
    let rest = pieces-append xs ys more in
    rw (other, rest) (ap (λ (q : List Bytes × Bytes). ((x ∷ xs) ∷ (pieces ys).0, q.1)) rest)

strip_return-tab : (xs t : Bytes) → strip_return (xs ++ 9 ∷ t) ≡ xs ++ 9 ∷ strip_return t
strip_return-tab [] [] = refl
strip_return-tab [] (c ∷ cs) = refl
strip_return-tab (x ∷ []) t = ap (◌∷◌ x) (strip_return-tab [] t)
strip_return-tab (x ∷ y ∷ xs) t = ap (◌∷◌ x) (strip_return-tab (y ∷ xs) t)

lines-append :
    (xs ys : Bytes) → all is_flat xs ≡ true → lines (xs ++ 10 ∷ ys) ≡ strip_return xs ∷ lines ys
lines-append xs ys h = rw (pieces-append xs ys h) refl

no_tab : (t : Bytes) → all is_kept t ≡ true → all (λ c. not (c == 9)) t ≡ true
no_tab [] h = refl
no_tab (c ∷ cs) h = ground (arith, h, no_tab cs)

flat : (t : Bytes) → all is_kept t ≡ true → all is_flat t ≡ true
flat [] h = refl
flat (c ∷ cs) h = ground (arith, h, flat cs)

-- A line of a label and a detail.
flat_line :
    (l t : Bytes) → all is_kept l ≡ true → all is_kept t ≡ true → all is_flat (l ++ 9 ∷ t) ≡ true
flat_line l t h k = rw (all-append, flat l h, flat t k)

abbrev read_all : Bytes → List Report
read_all t = filter_map (map read_line (lines t))

read_line-tab :
    (l t : Bytes)
    → all is_kept l ≡ true
    → read_line (strip_return (l ++ 9 ∷ t)) ≡ read_parts (some (l, strip_return t))
unfolding read_line
read_line-tab l t h =
    ap (λ k. read_parts (split_once 9 k)) (strip_return-tab l t)
    ∙ ap read_parts (split_once-append 9 l (strip_return t) (no_tab l h))

-- What the parent reads of the degradations.
abbrev received_one : Degraded → Report
received_one d = degraded (record { step = d.step; detail = strip_return (cleaned d.detail) })

abbrev pub received : List Degraded → List Report
received [] = []
received (d ∷ ds) = received_one d ∷ received ds

reassociated :
    (l c e rest : Bytes) → (l ++ 9 ∷ (c ++ 10 ∷ e)) ++ rest ≡ (l ++ 9 ∷ c) ++ 10 ∷ (e ++ rest)
reassociated l c e rest =
    append_assoc l (9 ∷ (c ++ 10 ∷ e)) rest
    ∙ ap (λ k. l ++ 9 ∷ k) (append_assoc c (10 ∷ e) rest)
    ∙ sym (append_assoc l (9 ∷ c) (10 ∷ (e ++ rest)))

read_all-line :
    (l c rest : Bytes) (r : Report)
    → all is_kept l ≡ true
    → all is_kept c ≡ true
    → read_parts (some (l, strip_return c)) ≡ some r
    → read_all ((l ++ 9 ∷ c) ++ 10 ∷ rest) ≡ r ∷ read_all rest
read_all-line l c rest r h k e =
    ap (λ ls. filter_map (map read_line ls)) (lines-append (l ++ 9 ∷ c) rest (flat_line l c h k))
    ∙ ap (λ o. filter_map (o ∷ map read_line (lines rest))) (read_line-tab l c h ∙ e)

read_all-encode :
    (ds : List Degraded) (rest : Bytes)
    → read_all (encode ds ++ rest) ≡ received ds ++ read_all rest
unfolding encode
read_all-encode [] rest = refl
read_all-encode (d ∷ ds) rest =
    ap read_all (reassociated (step_label d.step) (cleaned d.detail) (encode ds) rest)
    ∙ read_all-line (step_label d.step) (cleaned d.detail) (encode ds ++ rest) (received_one d)
        (step_label-kept d.step) (cleaned-kept d.detail) (rw (step_from-step_label d.step) refl)
    ∙ ap (◌∷◌ (received_one d)) (read_all-encode ds rest)

read_all-encode_refusal : (r : HelperRefusal) → read_all (encode_refusal r) ≡ failed r ∷ []
unfolding encode_refusal
read_all-encode_refusal r =
    let (kept, no_step, known) = refusal_label-Distinct r in
    ap read_all (sym (append_assoc (refusal_label r) (9 ∷ []) (10 ∷ [])))
    ∙ read_all-line (refusal_label r) [] [] (failed r) kept refl (rw (no_step, known) refl)

-- Whatever degraded and for whatever reasons, and whichever refusal ended the helper, the parent reads
-- just that, in order and up to the limit: each step by its own label, with its reason less its tabs
-- and ends of lines, cut to length, and less one carriage return at its end; and the refusal as a
-- refusal, never as a step.
pub decode-encode_refusal :
    (ds : List Degraded) (r : HelperRefusal)
    → decode (encode ds ++ encode_refusal r) ≡ take record_limit (received ds ++ failed r ∷ [])
unfolding decode
decode-encode_refusal ds r =
    ap (take record_limit)
      (read_all-encode ds (encode_refusal r) ∙ ap (◌++◌ (received ds)) (read_all-encode_refusal r))
