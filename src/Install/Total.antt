-- ===== src/Install/Total.antt =====
-- The loop ends: a feed always returns, with a running session or after a rollback.
use mathlib.Core.Path.{subst}
use nx_nexus.Base.{
  sym, Bool-cases, ◌==◌, if◌then◌else◌, ◌+◌, ℕ, zero, suc, ◌≤◌, ◌≡◌, ◌⊎◌, inl, inr, refl, Option,
  some, none, false, [], ◌∷◌, arith, length, Bytes,
}
use nx_nexus.Install.{
  InstallStage, idle, at_magic, at_header, streaming, complete, failed, InstallResult, install_ok,
  in_progress, Backend, Decoder, Session, begin_install,
}
use nx_nexus.Install.Feed.{
  Turn, next, stop, turn, answer, feed_loop, feed_fuel, feed_at, install_feed,
}
use nx_nexus.Install.Run.{RolledBack}
use nx_nexus.Install.Round.{HeaderFits, IsRunning, rank, rank_of, TurnEnds}
use nx_nexus.Install.Turns.{turn-Ends}
use nx_nexus.Install.Tracked.{Placeholder, IsTracked}
use nx_nexus.Install.Shut.{install_feed-IsTracked}

answer_cases : (stage : InstallStage) → (answer stage ≡ install_ok) ⊎ (answer stage ≡ in_progress)
answer_cases complete = inl refl
answer_cases idle = inr refl
answer_cases at_magic = inr refl
answer_cases at_header = inr refl
answer_cases streaming = inr refl
answer_cases failed = inr refl

pub rank_of-le :
    (stage : InstallStage) (entries cursor : ℕ) → entries ≤ 64 → rank_of stage entries cursor ≤ 67
rank_of-le at_magic entries cursor h = omega arith
rank_of-le at_header entries cursor h = omega arith
rank_of-le streaming entries cursor h = omega arith
rank_of-le complete entries cursor h = omega arith
rank_of-le idle entries cursor h = omega arith
rank_of-le failed entries cursor h = omega arith

module _ {B : Backend} {N : Decoder} where
  -- How a feed that took place ends.
  abbrev pub Halts : InstallResult × Session B N → Type 0
  Halts (r, s) = (((r ≡ install_ok) ⊎ (r ≡ in_progress)) × IsRunning s) ⊎ RolledBack r s

  abbrev Returns : Option (InstallResult × Session B N) → Type 0
  Returns none = ⊥
  Returns (some out) = Halts out

  after_turn :
      (fuel : ℕ) (s : Session B N) (p : Bytes) (t : Turn B N)
      → ((s' : Session B N) (rest : Bytes)
          → IsRunning s'
          → length rest + rank s' ≤ fuel
          → Returns (feed_loop fuel s' rest))
      → length p + rank s ≤ suc fuel
      → TurnEnds s p t
      → Returns (elim t [ next s' rest ↦ feed_loop fuel s' rest | stop r s' ↦ some (r, s') ])
  after_turn fuel s p (next s' rest) again h e = again s' rest e.0 (omega (arith, e.1))
  after_turn fuel s p (stop r s') again h (inl (q, v)) = inl (inr q, v)
  after_turn fuel s p (stop r s') again h (inr b) = inr b

  feed_loop-Returns :
      (fuel : ℕ) (s : Session B N) (p : Bytes)
      → IsRunning s
      → length p + rank s ≤ fuel
      → Returns (feed_loop fuel s p)
  unfolding feed_loop
  feed_loop-Returns fuel s [] v h = inl (answer_cases s.ins.stage, v)
  feed_loop-Returns zero s (b ∷ p) v h = absurd (omega arith)
  feed_loop-Returns (suc fuel) s (b ∷ p) v h =
      after_turn fuel s (b ∷ p) (turn s (b ∷ p)) (feed_loop-Returns fuel) h
        (turn-Ends s (b ∷ p) v (omega arith))

  feed_enough : (s : Session B N) (p : Bytes) → IsRunning s → Returns (feed_loop (feed_fuel p) s p)
  feed_enough s p v =
      feed_loop-Returns (feed_fuel p) s p v
        (omega (arith, rank_of-le s.ins.stage (length s.ins.entries) s.ins.entry_cursor v.few))

  feed_some :
      (s : Session B N) (p : Bytes)
      → IsRunning s
      → Returns (if length p == 0 then some (in_progress, s) else feed_loop (feed_fuel p) s p)
  feed_some s p v = elim (Bool-cases (length p == 0)) [
    | inl z ↦
        subst (λ b. Returns (if b then some (in_progress, s) else feed_loop (feed_fuel p) s p))
          (sym z) (inl (inr refl, v))
    | inr z ↦
        subst (λ b. Returns (if b then some (in_progress, s) else feed_loop (feed_fuel p) s p))
          (sym z) (feed_enough s p v)
  ]

  feed_at-Returns :
      (stage : InstallStage) (s : Session B N) (p : Bytes)
      → IsRunning s
      → s.ins.stage ≡ stage
      → Returns (feed_at stage s p)
  unfolding feed_at
  feed_at-Returns failed s p v st =
      absurd (subst (λ g. HeaderFits g (length s.ins.header) s.ins.header_size) st v.header_fits)
  feed_at-Returns idle s p v st =
      absurd (subst (λ g. HeaderFits g (length s.ins.header) s.ins.header_size) st v.header_fits)
  feed_at-Returns at_magic s p v st = feed_some s p v
  feed_at-Returns at_header s p v st = feed_some s p v
  feed_at-Returns streaming s p v st = feed_some s p v
  feed_at-Returns complete s p v st = feed_some s p v

  returned :
      (o : Option (InstallResult × Session B N))
      → Returns o
      → (out : InstallResult × Session B N) × (o ≡ some out) × Halts out
  returned none h = absurd h
  returned (some out) h = (out, refl, h)

  pub install_feed-Halts :
      (s : Session B N) (p : Bytes)
      → IsRunning s
      → (out : InstallResult × Session B N) × (install_feed s p ≡ some out) × Halts out
  unfolding install_feed
  install_feed-Halts s p v =
      returned (feed_at s.ins.stage s p) (feed_at-Returns s.ins.stage s p v refl)

module _ {B : Backend} {N : Decoder} (law : Placeholder B) where
  -- What a feed leaves of the session, and of the content that the backend has open.
  abbrev pub FeedEnds : InstallResult × Session B N → Type 0
  FeedEnds (r, s) =
      (((r ≡ install_ok) ⊎ (r ≡ in_progress)) × IsRunning s × IsTracked law s)
      ⊎ (RolledBack r s × (law.is_open s.user ≡ false))

  Halts-FeedEnds :
      (r : InstallResult) (s : Session B N) → IsTracked law s → Halts (r, s) → FeedEnds (r, s)
  Halts-FeedEnds r s k (inl (q, v)) = inl (q, v, k)
  Halts-FeedEnds r s k (inr b) = inr (b, k b.closed)

  -- Let the backend open and close its content as `Placeholder` says, and have one open only while the
  -- session notes it. Then a feed of a running session always returns, within its fuel: with `install_ok`
  -- or `in_progress`, every buffer still within its array, and the backend's content still open only while
  -- the session notes it; or with an error, the backend's rollback as the last call, and no content open
  -- in the backend.
  pub install_feed-FeedEnds :
      (s : Session B N) (p : Bytes)
      → IsRunning s
      → IsTracked law s
      → (out : InstallResult × Session B N) × (install_feed s p ≡ some out) × FeedEnds out
  install_feed-FeedEnds s p v k =
      let (out, e, halts) = install_feed-Halts s p v in
      (out, e, Halts-FeedEnds out.0 out.1 (install_feed-IsTracked law s p k e) halts)

-- A session that just began is running.
pub begin_install-IsRunning :
    {B : Backend} {N : Decoder} (target : ℕ) (user : B.State) (ncz_user : N.State)
    → IsRunning {B = B} {N = N}
        (record { ins = begin_install target; user = user; ncz_user = ncz_user })
unfolding begin_install
begin_install-IsRunning target user ncz_user = record {
  header_fits = omega arith;
  small = record { tik = omega arith; cert = omega arith };
  few = omega arith;
  position = omega arith;
}
