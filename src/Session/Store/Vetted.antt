-- ===== src/Session/Store/Vetted.antt =====
-- What `resume` has checked of a session that it gives.
use Prim.Native.Nat.{bit_and}
use sandbx.Common.{
  ℕ, Bool, true, false, not, ◌||◌, List, [], ◌∷◌, ◌≡◌, refl, ap, subst, ◌∙◌, ◌⊎◌, inl, inr, Option,
  Bytes, arith, ◌==◌, ==_iff, Bool-cases, not-false,
}
use sandbx.Session.{Message}
use sandbx.Session.Record.{ReplayError, Record, Replayed, replayed, ReplayResult, ok, err, fold}
use sandbx.Session.Shape.Append.{IsStored}
use sandbx.Session.Store.{
  SessionError, Result, done, failed, unreplayable, ◌>>=◌, ◌>>◌, refuse_if, Opened, absent, link,
  broken, opened, Owned, Transcript, Disk, Session, dir_writable, writable, resume, replay,
  vet_history, open_vetted, reopen, ownership, writable_bits,
}

with_done :
    {A P : Type 0} (r : Result A)
    → ((x : SessionError) → r ≡ failed x → true ≡ false)
    → ((a : A) → r ≡ done a → P)
    → P
with_done (done a) n k = k a refl
with_done (failed x) n k = cc (n x refl)

never : {A : Type 0} {x : SessionError} {a : A} → Path (Result A) (failed x) (done a) → true ≡ false
never e = cc e

done_injective : {A : Type 0} {a b : A} → Path (Result A) (done a) (done b) → a ≡ b
done_injective e = cc e

refuse_if-done : (b : Bool) (e : SessionError) (u : Unit {0}) → refuse_if b e ≡ done u → b ≡ false
refuse_if-done true e u h = cc h
refuse_if-done false e u h = refl

open_vetted-done : {A : Type 0} (o : Opened A) (a : A) → open_vetted o ≡ done a → o ≡ opened a
unfolding open_vetted
open_vetted-done absent a e = cc e
open_vetted-done link a e = cc e
open_vetted-done broken a e = cc e
open_vetted-done (opened b) a e = cc e

-- Owned by this process under both of its uids, and written by nobody else.
pub record IsTrusted (d : Disk) (o : Owned) : Type 0 where
  pub effective : o.uid ≡ d.euid
  pub real : o.uid ≡ d.ruid
  pub unshared : bit_and (bit_and o.mode 0o7777) writable_bits ≡ 0

ownership-IsTrusted :
    (d : Disk) (o : Owned) (mode : ℕ) (x : SessionError) (u : Unit {0})
    → ownership d o ≡ done mode
    → refuse_if (not (bit_and mode writable_bits == 0)) x ≡ done u
    → IsTrusted d o
unfolding ownership
ownership-IsTrusted d o mode x u e w =
    elim (Bool-cases (not (o.uid == d.euid) || not (o.uid == d.ruid))) [
      | inl k ↦ cc (rw k at e)
      | inr k ↦
          (let same : Path (Result ℕ) (done (bit_and o.mode 0o7777)) (done mode) = rw k at e in
            let m : bit_and o.mode 0o7777 ≡ mode = cc same in
            let z : not (bit_and mode writable_bits == 0) ≡ false = refuse_if-done _ x u w in
            record {
              effective = ground arith;
              real = ground arith;
              unshared =
                  ap (λ n. bit_and n writable_bits) m
                  ∙ (==_iff (bit_and mode writable_bits) 0).0 (not-false _ z);
            })
    ]

module _ {Json : Type 0} where
  vet_history-done :
      (ms : List (Message Json)) (u : Unit {0}) → vet_history ms ≡ done u → (ms ≡ []) ⊎ IsStored ms
  unfolding vet_history
  vet_history-done [] u e = inl refl
  vet_history-done (m ∷ ms) u e =
      inr (record { resumes = ground arith; alternates = ground arith; opening = ground arith })

  replay-done : (r : ReplayResult Json) (p : Replayed Json) → replay r ≡ done p → r ≡ ok p
  replay-done (ok r) p e = cc e
  replay-done (err x) p e = cc e

  -- Where `resume` gives a session: the directory and the transcript that it read are both this
  -- user's and writable by no one else, the session is what the transcript replays to, and its
  -- history is empty or one that keeps the order of a conversation.
  pub resume-IsTrusted :
      (parse : Bytes → Option (Record Json)) (d : Disk) (s : Session Json)
      → resume parse d ≡ done s
      → (o : Owned) × (t : Transcript) × (d.directory ≡ opened o)
        × IsTrusted d o
        × (d.transcript ≡ opened t)
        × IsTrusted d t.owned
        × (fold parse t.body ≡ ok (replayed s.messages s.accounting))
        × ((s.messages ≡ []) ⊎ IsStored s.messages)
  unfolding resume
  resume-IsTrusted parse d s e =
      with_done (open_vetted d.directory) (λ x p. never (rw (p, ◌>>◌, ◌>>=◌) at e))
        (λ o p0.
          let e0 = rw (p0, ◌>>◌, ◌>>=◌) at e in
          with_done (ownership d o) (λ x p. never (rw (p, ◌>>◌, ◌>>=◌) at e0))
            (λ m p1.
              let e1 = rw (p1, ◌>>◌, ◌>>=◌) at e0 in
              with_done (refuse_if (not (bit_and m writable_bits == 0)) (dir_writable m))
                (λ x p. never (rw (p, ◌>>◌, ◌>>=◌) at e1))
                (λ u p2.
                  let e2 = rw (p2, ◌>>◌, ◌>>=◌) at e1 in
                  with_done (open_vetted d.transcript) (λ x p. never (rw (p, ◌>>◌, ◌>>=◌) at e2))
                    (λ t p3.
                      let e3 = rw (p3, ◌>>◌, ◌>>=◌) at e2 in
                      with_done (ownership d t.owned) (λ x p. never (rw (p, ◌>>◌, ◌>>=◌) at e3))
                        (λ n p4.
                          let e4 = rw (p4, ◌>>◌, ◌>>=◌) at e3 in
                          with_done (refuse_if (not (bit_and n writable_bits == 0)) (writable n))
                            (λ x p. never (rw (p, ◌>>◌, ◌>>=◌) at e4))
                            (λ v p5.
                              let e5 = rw (p5, ◌>>◌, ◌>>=◌) at e4 in
                              with_done (replay (fold parse t.body))
                                (λ x p. never (rw (p, ◌>>◌, ◌>>=◌) at e5))
                                (λ r p6.
                                  let e6 = rw (p6, ◌>>◌, ◌>>=◌) at e5 in
                                  with_done (vet_history r.messages)
                                    (λ x p. never (rw (p, ◌>>◌, ◌>>=◌) at e6))
                                    (λ h p7.
                                      let e7 = rw (p7, ◌>>◌, ◌>>=◌) at e6 in
                                      with_done (reopen d.reopened)
                                        (λ x p. never (rw (p, ◌>>◌, ◌>>=◌) at e7))
                                        (λ c p8.
                                          let e8 = rw (p8, ◌>>◌, ◌>>=◌) at e7 in
                                          let same : r.messages ≡ s.messages =
                                            ap (λ (z : Session Json). z.messages)
                                              (done_injective e8) in
                                          let count : r.accounting ≡ s.accounting =
                                            ap (λ (z : Session Json). z.accounting)
                                              (done_injective e8) in
                                          (
                                            o,
                                            t,
                                            open_vetted-done d.directory o p0,
                                            ownership-IsTrusted d o m (dir_writable m) u p1 p2,
                                            open_vetted-done d.transcript t p3,
                                            ownership-IsTrusted d t.owned n (writable n) v p4 p5,
                                            replay-done (fold parse t.body) r p6
                                                ∙ ap (λ ms. ok (replayed ms r.accounting)) same
                                                ∙ ap (λ a. ok (replayed s.messages a)) count,
                                            subst (λ ms. (ms ≡ []) ⊎ IsStored ms) same
                                                (vet_history-done r.messages h p7),
                                          ))))))))))

ownership-done :
    (d : Disk) (o : Owned) → IsTrusted d o → ownership d o ≡ done (bit_and o.mode 0o7777)
unfolding ownership
ownership-done d o t = ground (arith, t.effective, t.real)

unshared-done :
    (d : Disk) (o : Owned) (x : SessionError)
    → IsTrusted d o
    → refuse_if (not (bit_and (bit_and o.mode 0o7777) writable_bits == 0)) x ≡ done tt
unshared-done d o x t = rw t.unshared refl

module _ {Json : Type 0} where
  -- Where the directory and the transcript are trusted, one that does not replay is refused for that.
  pub resume_unreplayable :
      (parse : Bytes → Option (Record Json)) (d : Disk) (o : Owned) (t : Transcript)
      (e : ReplayError)
      → d.directory ≡ opened o
      → IsTrusted d o
      → d.transcript ≡ opened t
      → IsTrusted d t.owned
      → fold parse t.body ≡ err e
      → Path (Result (Session Json)) (resume parse d) (failed (unreplayable e))
  unfolding resume open_vetted
  resume_unreplayable parse d o t e p a q b f =
      rw (p, open_vetted)
        (rw (ownership-done d o a, ◌>>=◌)
          (rw (unshared-done d o _ a, ◌>>=◌)
            (rw (q, open_vetted)
              (rw (ownership-done d t.owned b, ◌>>=◌)
                (rw (unshared-done d t.owned _ b, ◌>>=◌) (rw (f, replay) refl))))))
