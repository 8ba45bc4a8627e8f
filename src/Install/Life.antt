-- ===== src/Install/Life.antt =====
-- What a host may do with a session before it finishes it.
use mathlib.Core.Path.{subst}
use nx_nexus.Base.{ℕ, ◌≡◌, ◌≢◌, ◌⊎◌, inl, inr, refl, sym, ap, ◌∙◌, some, none, false, length, Bytes}
use nx_nexus.Install.{
  InstallStage, idle, at_magic, at_header, streaming, complete, failed, InstallResult, aborted,
  Backend, Decoder, Session, begin_install, set_decompressor,
}
use nx_nexus.Install.Feed.{feed_at, install_feed}
use nx_nexus.Install.Finish.{abort_at, install_abort, finish_at, install_finish}
use nx_nexus.Install.Run.{RolledBack, fail-RolledBack}
use nx_nexus.Install.Round.{IsRunning, HeaderFits}
use nx_nexus.Install.Tracked.{Placeholder, IsTracked}
use nx_nexus.Install.Shut.{install_feed-IsTracked, install_abort-IsTracked}
use nx_nexus.Install.Total.{Halts, install_feed-Halts, begin_install-IsRunning}

module _ {B : Backend} {N : Decoder} where
  -- A failed session, rolled back by the last call that the backend got.
  abbrev pub IsOver : Session B N → Type 0
  IsOver s = (r : InstallResult) × RolledBack r s

  feed_failed :
      (s : Session B N) (p : Bytes) → s.ins.stage ≡ failed → install_feed s p ≡ some (aborted, s)
  unfolding install_feed feed_at
  feed_failed s p st = ap (λ g. feed_at g s p) st

  abort_failed : (s : Session B N) → s.ins.stage ≡ failed → install_abort s ≡ s
  unfolding install_abort abort_at
  abort_failed s st = ap (λ g. abort_at g s) st

  finish_failed : (s : Session B N) → s.ins.stage ≡ failed → install_finish s ≡ (aborted, s)
  unfolding install_finish finish_at
  finish_failed s st = ap (λ g. finish_at g s) st

  abort_at-IsOver : (g : InstallStage) (s : Session B N) → g ≢ failed → IsOver (abort_at g s)
  unfolding abort_at
  abort_at-IsOver failed s n = absurd (n refl)
  abort_at-IsOver idle s n = (aborted, fail-RolledBack s aborted (λ e. cc) (λ e. cc))
  abort_at-IsOver at_magic s n = (aborted, fail-RolledBack s aborted (λ e. cc) (λ e. cc))
  abort_at-IsOver at_header s n = (aborted, fail-RolledBack s aborted (λ e. cc) (λ e. cc))
  abort_at-IsOver streaming s n = (aborted, fail-RolledBack s aborted (λ e. cc) (λ e. cc))
  abort_at-IsOver complete s n = (aborted, fail-RolledBack s aborted (λ e. cc) (λ e. cc))

  running-ne-failed : (s : Session B N) → IsRunning s → s.ins.stage ≢ failed
  running-ne-failed s v st =
      subst (λ g. HeaderFits g (length s.ins.header) s.ins.header_size) st v.header_fits

  attached-IsOver :
      (s : Session B N) → IsOver s → IsOver (record s { ins = set_decompressor s.ins })
  unfolding set_decompressor
  attached-IsOver s (r, d) = (
    r,
    record {
      is_failed = d.is_failed;
      closed = d.closed;
      not_ok = d.not_ok;
      not_progress = d.not_progress;
      before = d.before;
      rolled = d.rolled;
    },
  )

  attached-IsRunning :
      (s : Session B N)
      → IsRunning s
      → IsRunning {B = B} {N = N} (record s { ins = set_decompressor s.ins })
  unfolding set_decompressor
  attached-IsRunning s v = record {
    header_fits = v.header_fits;
    small = record { tik = v.small.tik; cert = v.small.cert };
    few = v.few;
    position = v.position;
  }

  Halts-cases : (r : InstallResult) (t : Session B N) → Halts (r, t) → IsRunning t ⊎ IsOver t
  Halts-cases r t (inl (_, v)) = inl v
  Halts-cases r t (inr d) = inr (r, d)

  fed-cases :
      (s : Session B N) (p : Bytes) (r : InstallResult) (t : Session B N)
      → install_feed s p ≡ some (r, t)
      → IsRunning s ⊎ IsOver s
      → IsRunning t ⊎ IsOver t
  fed-cases s p r t e (inl v) =
      let (out, e', ends) = install_feed-Halts s p v in
      let same : out ≡ (r, t) = ap (λ o. elim o [ some x ↦ x | none ↦ (r, t) ]) (sym e' ∙ e) in
      Halts-cases r t (subst Halts same ends)
  fed-cases s p r t e (inr d) =
      let same : s ≡ t =
        ap (λ o. elim o [ some x ↦ x.1 | none ↦ s ]) (sym (feed_failed s p d.1.is_failed) ∙ e) in
      inr (subst IsOver same d)

  abort-IsOver : (s : Session B N) → IsRunning s ⊎ IsOver s → IsOver (install_abort s)
  unfolding install_abort
  abort-IsOver s (inl v) = abort_at-IsOver s.ins.stage s (running-ne-failed s v)
  abort-IsOver s (inr d) = subst IsOver (sym (abort_failed s d.1.is_failed)) d

module _ {B : Backend} {N : Decoder} (law : Placeholder B) where
  -- A session as a new one comes to be by feeds, an abort, and the attachment of a decoder; the backend
  -- has no content open when it starts.
  pub data Reached : Session B N → Type 0 where
    started :
        (target : ℕ) (user : B.State) (ncz_user : N.State)
        → law.is_open user ≡ false
        → Reached (record { ins = begin_install target; user = user; ncz_user = ncz_user })
    attached : (s : Session B N) → Reached s → Reached (record s { ins = set_decompressor s.ins })
    fed :
        (s : Session B N) (p : Bytes) (r : InstallResult) (t : Session B N)
        → Reached s
        → install_feed s p ≡ some (r, t)
        → Reached t
    stopped : (s : Session B N) → Reached s → Reached (install_abort s)

  Reached-cases : (s : Session B N) → Reached s → IsRunning s ⊎ IsOver s
  Reached-cases s (started target user ncz_user shut) =
      inl (begin_install-IsRunning target user ncz_user)
  Reached-cases s (attached t h) = elim (Reached-cases t h) [
    | inl v ↦ inl (attached-IsRunning t v)
    | inr d ↦ inr (attached-IsOver t d)
  ]
  Reached-cases s (fed t p r u h e) = fed-cases t p r u e (Reached-cases t h)
  Reached-cases s (stopped t h) = inr (abort-IsOver t (Reached-cases t h))

  attached-IsTracked :
      (s : Session B N)
      → IsTracked law s
      → IsTracked law {N = N} (record s { ins = set_decompressor s.ins })
  unfolding set_decompressor
  attached-IsTracked s k = k

  Reached-IsTracked : (s : Session B N) → Reached s → IsTracked law s
  Reached-IsTracked s (started target user ncz_user shut) = λ _. shut
  Reached-IsTracked s (attached t h) = attached-IsTracked t (Reached-IsTracked t h)
  Reached-IsTracked s (fed t p r u h e) = install_feed-IsTracked law t p (Reached-IsTracked t h) e
  Reached-IsTracked s (stopped t h) = install_abort-IsTracked law t (Reached-IsTracked t h)

  -- Let the backend open and close its content as `Placeholder` says. A session that a new one came to be
  -- by feeds, an abort and the attachment of a decoder, in any order, either takes bytes, with every
  -- buffer within its array and a content open in the backend only while the session notes it; or it is
  -- over: the last call that the backend got is its rollback, no content is open in the backend, and a
  -- feed, a finish or an abort changes nothing and calls nothing.
  pub Reached-IsOver :
      (s : Session B N) (p : Bytes)
      → Reached s
      → (IsRunning s × IsTracked law s)
        ⊎ (IsOver s
            × (law.is_open s.user ≡ false)
            × (install_feed s p ≡ some (aborted, s))
            × (install_finish s ≡ (aborted, s))
            × (install_abort s ≡ s))
  Reached-IsOver s p h =
      let tracked = Reached-IsTracked s h in
      elim (Reached-cases s h) [
        | inl v ↦ inl (v, tracked)
        | inr d ↦
            let st = d.1.is_failed in
            inr (d, tracked d.1.closed, feed_failed s p st, finish_failed s st, abort_failed s st)
      ]
