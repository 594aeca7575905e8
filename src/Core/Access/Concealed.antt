-- ===== src/Core/Access/Concealed.antt =====
-- Outside the granted areas an access is refused alike, whatever the host holds there.
use sandbx.Common.{◌≡◌, refl, sym, ap, ◌∙◌, Option, none, some, true, ℕ, List}
use sandbx.Core.FilePath.{FilePath}
use sandbx.Core.Host.{Host, writing}
use sandbx.Core.Guard.{
  Access, read, write, AuditEvent, Verdict, Result, granted, refused, FsGuard, Replacement,
  Permitted, deny, moved_root,
}
use sandbx.Core.Guard.Covered.{SameRoots, moved_root-same}
use sandbx.Core.Check.{permit_write}
use sandbx.Core.Check.Concealed.{
  hidden, hidden_read, hidden_write, permit_read-hidden, permit_write-hidden,
}
use sandbx.Core.Access.{◌>>=◌, settle, open_permitted, open_read, open_write, read_dir, roots_for}

deny-bind :
    {B : Type 0} (g : FsGuard) (m : Option Replacement) (p : FilePath) (a : Access)
    (f : Permitted → Verdict B)
    → (deny g m p a >>= f) ≡ deny g m p a
unfolding deny
deny-bind g none p a f = refl
deny-bind g (some m) p a f = refl

abbrev bind_outcome : {B : Type 0} → (Permitted → Verdict B) → Result Permitted → Result B
bind_outcome f (granted x) = (f x).0
bind_outcome f (refused e) = refused e

outcome-bind :
    {B : Type 0} (f : Permitted → Verdict B) (r : Result Permitted) (es : List AuditEvent)
    → ((r, es) >>= f).0 ≡ bind_outcome f r
outcome-bind f (granted x) es = refl
outcome-bind f (refused e) es = refl

module _ (h k : Host) (g : FsGuard) (p : FilePath) where
  open_read-hidden :
      hidden_read h g p ≡ true → open_read h k g p ≡ deny g (moved_root h p g.readable) p read
  unfolding open_read
  open_read-hidden a = rw (permit_read-hidden h g p a) (deny-bind g _ p read _)

  read_dir-hidden :
      hidden_read h g p ≡ true → read_dir h k g p ≡ deny g (moved_root h p g.readable) p read
  unfolding read_dir
  read_dir-hidden a = rw (permit_read-hidden h g p a) (deny-bind g _ p read _)

  open_write-hidden :
      hidden_write h g p ≡ true
      → (open_write h k g p).0 ≡ (deny {A = ℕ} g (moved_root h p g.writable) p write).0
  unfolding open_write
  open_write-hidden a =
      let f : Permitted → Verdict ℕ = λ x. settle g (open_permitted k x writing) write p in
      let refusal : Verdict Permitted = deny g (moved_root h p g.writable) p write in
      outcome-bind f (permit_write h g p).0 (permit_write h g p).1
      ∙ ap (bind_outcome f) (permit_write-hidden h g p a)
      ∙ sym (outcome-bind f refusal.0 refusal.1)
      ∙ ap (λ (v : Verdict ℕ). v.0) (deny-bind g (moved_root h p g.writable) p write f)

module _ (h k h' k' : Host) (g : FsGuard) (p : FilePath) where
  open_read-concealed :
      SameRoots h h' g.readable
      → h.current_dir ≡ h'.current_dir
      → hidden_read h g p ≡ true
      → hidden_read h' g p ≡ true
      → (open_read h k g p ≡ open_read h' k' g p) × (read_dir h k g p ≡ read_dir h' k' g p)
  open_read-concealed s e a b =
      let moved : moved_root h p g.readable ≡ moved_root h' p g.readable =
        moved_root-same h h' p g.readable s e in
      (
        open_read-hidden h k g p a
            ∙ ap (λ m. deny g m p read) moved
            ∙ sym (open_read-hidden h' k' g p b),
        read_dir-hidden h k g p a
            ∙ ap (λ m. deny g m p read) moved
            ∙ sym (read_dir-hidden h' k' g p b),
      )

  open_write-concealed :
      SameRoots h h' g.writable
      → h.current_dir ≡ h'.current_dir
      → hidden_write h g p ≡ true
      → hidden_write h' g p ≡ true
      → (open_write h k g p).0 ≡ (open_write h' k' g p).0
  open_write-concealed s e a b =
      open_write-hidden h k g p a
      ∙ ap (λ m. (deny {A = ℕ} g m p write).0) (moved_root-same h h' p g.writable s e)
      ∙ sym (open_write-hidden h' k' g p b)

  -- A reader is refused with the same record; of a write, the record may name its reason.
  abbrev pub RefusedAlike : Access → Type 0
  RefusedAlike read =
      (open_read h k g p ≡ open_read h' k' g p) × (read_dir h k g p ≡ read_dir h' k' g p)
  RefusedAlike write = (open_write h k g p).0 ≡ (open_write h' k' g p).0

  -- Let two hosts find the same objects at the roots granted for an access, with the same working
  -- directory, and let the path be hidden on both: neither it nor a directory above it resolves into
  -- a root that covers it and holds its object, nor would the name of a new file; or it does not
  -- resolve, and steps up or is a symbolic link. Then both give the caller the same error, and to a
  -- reader the same record, of a listing too: neither tells what is there from what is not.
  pub open_for-concealed :
      (a : Access)
      → SameRoots h h' (roots_for a g)
      → h.current_dir ≡ h'.current_dir
      → hidden a h g p ≡ true
      → hidden a h' g p ≡ true
      → RefusedAlike a
  open_for-concealed read s e x y = open_read-concealed s e x y
  open_for-concealed write s e x y = open_write-concealed s e x y
