-- ===== src/Install/Run.antt =====
-- What every part of a round keeps: the place in the stream and the bounds of the buffers; and what
-- a failure leaves.
use nx_nexus.Base.{◌≤◌, ◌≡◌, ◌≢◌, refl, Bool, true, false, arith, length, if◌then◌else◌, ◌∙◌, ap}
use nx_nexus.Install.{failed, InstallResult, install_ok, in_progress, Backend, Decoder, Session}
use nx_nexus.Install.Feed.{Attempt, went, failed_with, and_then, fail, fail_session}

module _ {B : Backend} {N : Decoder} where
  -- A failure is an error, closes what is open, and has the backend roll back as the last thing.
  pub record RolledBack (r : InstallResult) (s : Session B N) : Type 0 where
    pub is_failed : s.ins.stage ≡ failed
    pub closed : s.ins.content_open ≡ false
    pub not_ok : r ≢ install_ok
    pub not_progress : r ≢ in_progress
    pub before : B.State
    pub rolled : s.user ≡ B.rollback s.ins.meta before

  abbrev pub Ends : (Session B N → Type 0) → Attempt B N → Type 0
  Ends P (went s) = P s
  Ends P (failed_with r s) = RolledBack r s

  pub and_then-Ends :
      {P : Session B N → Type 0} (Q : Session B N → Type 0) (a : Attempt B N)
      (f : Session B N → Attempt B N)
      → Ends P a
      → ((s : Session B N) → P s → Ends Q (f s))
      → Ends Q (and_then a f)
  and_then-Ends Q (went s) f h k = k s h
  and_then-Ends Q (failed_with r s) f h k = h

  pub fail-RolledBack :
      (s : Session B N) (r : InstallResult)
      → r ≢ install_ok
      → r ≢ in_progress
      → RolledBack r (fail_session s)
  unfolding fail_session
  fail-RolledBack s r ok' progress = record {
    is_failed = refl;
    closed = refl;
    not_ok = ok';
    not_progress = progress;
    before = if s.ins.content_open then B.content_discard s.user else s.user;
    rolled = refl;
  }

  -- What the parts before the cursor moves keep.
  pub record Kept (s s' : Session B N) : Type 0 where
    pub stage : s'.ins.stage ≡ s.ins.stage
    pub entries : s'.ins.entries ≡ s.ins.entries
    pub cursor : s'.ins.entry_cursor ≡ s.ins.entry_cursor
    pub header : s'.ins.header ≡ s.ins.header
    pub position : s'.ins.stream_pos ≡ s.ins.stream_pos
    pub tik : s'.ins.tik ≡ s.ins.tik
    pub cert : s'.ins.cert ≡ s.ins.cert

  pub Kept-refl : (s : Session B N) → Kept s s
  Kept-refl s = record {
    stage = refl;
    entries = refl;
    cursor = refl;
    header = refl;
    position = refl;
    tik = refl;
    cert = refl;
  }

  pub Kept-trans :
      {s : Session B N} (t : Session B N) {u : Session B N} → Kept s t → Kept t u → Kept s u
  Kept-trans t a b = record {
    stage = b.stage ∙ a.stage;
    entries = b.entries ∙ a.entries;
    cursor = b.cursor ∙ a.cursor;
    header = b.header ∙ a.header;
    position = b.position ∙ a.position;
    tik = b.tik ∙ a.tik;
    cert = b.cert ∙ a.cert;
  }

  -- The buffers of the small files are within their arrays.
  pub record Small (s : Session B N) : Type 0 where
    pub tik : length s.ins.tik ≤ 0x1000
    pub cert : length s.ins.cert ≤ 0x2000

  -- What routing bytes keeps.
  pub record Routed (s s' : Session B N) : Type 0 where
    pub stage : s'.ins.stage ≡ s.ins.stage
    pub entries : s'.ins.entries ≡ s.ins.entries
    pub cursor : s'.ins.entry_cursor ≡ s.ins.entry_cursor
    pub header : s'.ins.header ≡ s.ins.header
    pub position : s'.ins.stream_pos ≡ s.ins.stream_pos
    pub small : Small s'

  pub Kept-Routed : {s s' : Session B N} → Small s → Kept s s' → Routed s s'
  Kept-Routed m k = record {
    stage = k.stage;
    entries = k.entries;
    cursor = k.cursor;
    header = k.header;
    position = k.position;
    small = record {
      tik = omega (arith, ap length k.tik, m.tik);
      cert = omega (arith, ap length k.cert, m.cert);
    };
  }

  fail-Ends :
      (P : Session B N → Type 0) (s : Session B N) (r : InstallResult)
      → r ≢ install_ok
      → r ≢ in_progress
      → Ends P (fail s r)
  fail-Ends P s r o p = fail-RolledBack s r o p

  pub if-Ends :
      (P : Session B N → Type 0) (b : Bool) (x y : Attempt B N)
      → (b ≡ true → Ends P x)
      → (b ≡ false → Ends P y)
      → Ends P (if b then x else y)
  if-Ends P true x y h k = h refl
  if-Ends P false x y h k = k refl

  -- To split on whether a hook succeeded.
  pub when-Ends :
      (P : Session B N → Type 0) (b : Bool) (s t : Session B N) (r : InstallResult)
      → r ≢ install_ok
      → r ≢ in_progress
      → P s
      → Ends P (if b then went s else fail t r)
  when-Ends P true s t r o p h = h
  when-Ends P false s t r o p h = fail-RolledBack t r o p

  pub unless-Ends :
      (P : Session B N → Type 0) (b : Bool) (s t : Session B N) (r : InstallResult)
      → r ≢ install_ok
      → r ≢ in_progress
      → (b ≡ false → P s)
      → Ends P (if b then fail t r else went s)
  unless-Ends P true s t r o p h = fail-RolledBack t r o p
  unless-Ends P false s t r o p h = h refl
