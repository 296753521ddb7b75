-- ===== src/Storage/Limits.antt =====
-- What a sink's writer is once it is ready: the file that was open, if the line fits and the day is
-- its day, or one that was opened for the line.
use golem_harness.Base.{
  ℕ, suc, ◌+◌, ◌≤◌, Str, is_empty, str_eq, ◌≡◌, refl, sym, ap, ◌∙◌, ◌⊎◌, inl, inr, Bool, true,
  false, ◌||◌, ◌&&◌, not, eq_of-str_eq, Option, none, some, arith, Option-cases, Bool-cases,
  if◌then◌else◌,
}
use golem_harness.Base.Int.{pos}
use golem_harness.Clock.{Time}
use golem_harness.Storage.{
  JsonlSink, Answer, over_limit, rotate, rotate_open, rotate_found, open_file, reopen,
  ensure_writer,
}
use golem_harness.Storage.Paths.{Files, Names, archive_stamp}
use golem_harness.Storage.Rotation.{Stat-cases}
use golem_harness.Storage.Settings.{IsClosed, proceed-answers, rotate_found-IsSame, rotate-IsClosed}

module _ (F : Files) (N : Names) where
  -- The line fits under the bound, if there is one, and the clock's day is the sink's day, if it
  -- has one and rotates daily.
  pub record IsKept (next : ℕ) (now : Time) (s : JsonlSink F N) : Type 0 where
    pub fits : (n : ℕ) → s.opts.max_bytes ≡ pos (suc n) → s.size + next ≤ suc n
    pub today : s.opts.rotate_daily ≡ true → is_empty s.day ≡ false → N.day_of now ≡ s.day

  -- The sink's path was opened and nothing was written since.
  pub record IsOpened (now : Time) (s t : JsonlSink F N) : Type 0 where
    pub before : F.State
    pub opened : F.open_append s.path before ≡ (t.file, t.files)
    pub size :
        (h : F.Handle) (n : ℕ) → t.file ≡ some h → F.file_size h t.files ≡ some n → t.size ≡ n
    pub day : t.day ≡ N.day_of now

  -- A file is open: the one of before, or one that was opened.
  pub record IsReady (next : ℕ) (now : Time) (s t : JsonlSink F N) : Type 0 where
    pub handle : F.Handle
    pub is_open : t.file ≡ some handle
    pub path : t.path ≡ s.path
    pub opts : t.opts ≡ s.opts
    pub due : ((t ≡ s) × IsKept next now s) ⊎ IsOpened now s t

  over_limit-fits :
      (s : JsonlSink F N) (next n : ℕ)
      → over_limit F N s s.size next ≡ false
      → s.opts.max_bytes ≡ pos (suc n)
      → s.size + next ≤ suc n
  over_limit-fits s next n h e = ground arith

  open_file-IsReady :
      (next : ℕ) (now : Time) (s u : JsonlSink F N)
      → u.path ≡ s.path
      → u.opts ≡ s.opts
      → (open_file F N now u).0 ≡ none
      → IsReady next now s (open_file F N now u).1
  unfolding open_file
  open_file-IsReady next now s u p o h = elim (Option-cases (F.open_append u.path u.files).0) [
    | inl e ↦ absurd (ground arith)
    | inr (handle, e) ↦ record {
      handle = handle;
      is_open = ground arith;
      path = ground arith;
      opts = ground arith;
      due = inr (record {
        before = u.files;
        opened = ground arith;
        size = λ h' n hf hn. ground arith;
        day = ground arith;
      });
    }
  ]

  reopen-IsReady :
      (next : ℕ) (now : Time) (s u : JsonlSink F N)
      → u.path ≡ s.path
      → u.opts ≡ s.opts
      → (reopen F N next now u).0 ≡ none
      → IsReady next now s (reopen F N next now u).1
  unfolding reopen
  reopen-IsReady next now s u p o = elim (Stat-cases F N (F.stat u.path u.files)) [
    | inl e ↦ rw (e, reopen) (open_file-IsReady next now s u p o)
    | inr (inl e) ↦ rw (e, reopen) (λ h. absurd (ground arith))
    | inr (inr (n, t, e)) ↦
        let k = rotate_found-IsSame F N next now n t u in
        rw (e, reopen)
          (proceed-answers F N (IsReady next now s) (rotate_found F N next now n t u)
            (open_file F N now) λ fine. open_file-IsReady next now s _ (k.path ∙ p) (k.opts ∙ o))
  ]

  -- The rotation of an open file, by whether it is due
  choice : JsonlSink F N → Str → Bool → Answer F N
  choice s stamp b = if b then rotate F N stamp s else (none, s)

  -- The end of ensureWriter, on the file that is open
  the_writer : ℕ → Time → JsonlSink F N → Option F.Handle → Answer F N
  the_writer next now t x = elim x [ none ↦ reopen F N next now t | some h ↦ (none, t) ]

  -- dayBoundary
  past_day : Time → JsonlSink F N → Bool
  past_day now s = s.opts.rotate_daily && not (is_empty s.day) && not (str_eq (N.day_of now) s.day)

  rotate_open-none :
      (next : ℕ) (now : Time) (s : JsonlSink F N)
      → s.file ≡ none
      → rotate_open F N next now s ≡ (none, s)
  unfolding rotate_open
  rotate_open-none next now s e = ground arith

  rotate_open-some :
      (next : ℕ) (now : Time) (s : JsonlSink F N) (h : F.Handle)
      → s.file ≡ some h
      → rotate_open F N next now s
        ≡ choice s
            (archive_stamp N s.day now (past_day now s))
            (past_day now s || over_limit F N s s.size next)
  unfolding rotate_open past_day choice
  rotate_open-some next now s h e = ground arith

  IsKept-within :
      (next : ℕ) (now : Time) (s : JsonlSink F N)
      → past_day now s || over_limit F N s s.size next ≡ false
      → IsKept next now s
  unfolding past_day
  IsKept-within next now s b = record {
    fits = λ n e. over_limit-fits s next n (ground arith) e;
    today = λ daily dated. eq_of-str_eq (N.day_of now) s.day (ground arith);
  }

  rotate_open-IsKept :
      (next : ℕ) (now : Time) (s : JsonlSink F N)
      → (rotate_open F N next now s).0 ≡ none
      → let t = (rotate_open F N next now s).1 in
        ((h : F.Handle) × (s.file ≡ some h) × (t ≡ s) × IsKept next now s) ⊎ IsClosed F N s t
  unfolding choice
  rotate_open-IsKept next now s fine = elim (Option-cases s.file) [
    | inl e ↦
        rw (rotate_open-none next now s e) (inr (record { file = e; path = refl; opts = refl }))
    | inr (h, e) ↦ elim (Bool-cases (past_day now s || over_limit F N s s.size next)) [
      | inl b ↦
          let q = rotate_open-some next now s h e ∙ ap (choice s _) b in
          rw q (inr (rotate-IsClosed F N _ s (sym (ap (λ a. a.0) q) ∙ fine)))
      | inr b ↦
          rw (rotate_open-some next now s h e ∙ ap (choice s _) b)
            (inl (h, e, refl, IsKept-within next now s b))
    ]
  ]

  the_writer-IsReady :
      (next : ℕ) (now : Time) (s t : JsonlSink F N) (x : Option F.Handle)
      → (x ≡ none → (reopen F N next now t).0 ≡ none → IsReady next now s (reopen F N next now t).1)
      → ((h : F.Handle) → x ≡ some h → IsReady next now s t)
      → let a = the_writer next now t x in a.0 ≡ none → IsReady next now s a.1
  unfolding the_writer
  the_writer-IsReady next now s t none closed open' h = closed refl h
  the_writer-IsReady next now s t (some x) closed open' h = open' x refl

  -- Where a call of ensureWriter returns no error, a file is open, at the path and with the
  -- options of before. It is the file of before, with nothing changed, room for the line under the
  -- bound and, with daily rotation, the day of the clock; or it was opened by the call, its size
  -- was read if it could be, and its day is that of the clock.
  pub ensure_writer-IsReady :
      (next : ℕ) (now : Time) (s : JsonlSink F N)
      → (ensure_writer F N next now s).0 ≡ none
      → IsReady next now s (ensure_writer F N next now s).1
  unfolding ensure_writer the_writer
  ensure_writer-IsReady next now s =
      proceed-answers F N (IsReady next now s) (rotate_open F N next now s)
        (λ t. the_writer next now t t.file)
        λ fine. elim (rotate_open-IsKept next now s fine) [
          | inl (h, e, q, kept) ↦
              the_writer-IsReady next now s _ _
                (λ shut. absurd (ground (arith, ap (λ t. t.file) q)))
                λ h' e'. record {
                  handle = h;
                  is_open = ap (λ t. t.file) q ∙ e;
                  path = ap (λ t. t.path) q;
                  opts = ap (λ t. t.opts) q;
                  due = inl (q, kept);
                }
          | inr c ↦
              the_writer-IsReady next now s _ _ (λ shut. reopen-IsReady next now s _ c.path c.opts)
                λ h' e'. absurd (ground (arith, c.file))
        ]
