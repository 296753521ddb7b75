-- ===== src/Proxy/Lives.antt =====
-- server/cmd/golem-proxy/main.go: the lives of the proxy. A life starts, serves calls that run at the
-- same time, and ends with the deferred calls of Close or is cut off. The configurations
-- of all lives name the same file for the replay guard; the rest of them, the certificates and the
-- clocks may differ.
use mathlib.Core.Path.{subst}
use golem_harness.Base.{
  ◌+◌, ◌≤◌, Str, ◌≡◌, sym, ap, ◌∙◌, inl, inr, Bool, true, false, Option, some, List, [], arith,
}
use golem_harness.Errors.{Error, ok, Result-cases}
use golem_harness.Config.{Config, load}
use golem_harness.Platform.{Platform}
use golem_harness.Trajectory.{RawFrame, SanitizedFrame}
use golem_harness.Auth.{Verifier}
use golem_harness.Auth.Replays.{Stands}
use golem_harness.Auth.Log.{Log, NoReplay}
use golem_harness.Auth.Sqlite.{ReplayDb, IsTransactional}
use golem_harness.Auth.Sqlite.Opening.{ReplayFile, IsDurable}
use golem_harness.Auth.Sqlite.Implements.{Holds, sqlite_guard, sqlite_guard-IsGuard}
use golem_harness.Sanitize.Redactor.{Pattern}
use golem_harness.Ingest.Concurrent.{Answer, System, Reaches}
use golem_harness.Ingest.Concurrent.Once.{
  times, times_accepted, times_pending, times-NoReplay, IsSafe, Reaches-IsSafe, Stood,
}
use golem_harness.Ingest.Timed.{Readings, timed_pipeline, timed_sink}
use golem_harness.Storage.{JsonlSink, close_file}
use golem_harness.Storage.Paths.{Files, Names}
use golem_harness.Proxy.{Outside, Proxy, serving, stopped, start}
use golem_harness.Proxy.Starting.{IsServing, IsUnchanged, Sound, start-Sound}

module _ (D : ReplayDb) (T : IsTransactional D) (R : ReplayFile D) (F : Files) (N : Names)
    (P : Platform) (matches : Pattern → Str → Bool) (marshal : SanitizedFrame → Option Str)
    (unmarshal : Str → Option RawFrame) (or_zero : Option SanitizedFrame → SanitizedFrame)
    (replay : Str) where
  -- Whatever configuration a start loads has its replay guard at `replay`.
  abbrev pub Replays : Outside → Str → Type 0
  Replays O path =
      (c : Config)
      → load O.decode_base64 O.replay_path_beside O.read_file O.decode_config path ≡ ok c
      → c.replay_path ≡ replay

  -- What outlives a process, with the calls that have ended, newest first, and the frames of which
  -- the verification has passed.
  pub record World : Type 0 where
    pub files : F.State
    pub disk : R.Disk
    pub answers : List Answer
    pub log : Log

  abbrev pub Running : Type 0
  Running =
      System (sqlite_guard D T) (timed_pipeline matches P) (timed_sink F N marshal) P unmarshal
        or_zero

  abbrev pub Runs : Running → Running → Type 0
  Runs =
      Reaches (sqlite_guard D T) (timed_pipeline matches P) (timed_sink F N marshal) P unmarshal
        or_zero

  abbrev pub begin :
      (O : Outside) (clock now : Readings)
      → Proxy O D T R F N P matches marshal clock now
      → World
      → Running
  begin O clock now p w = record {
    service = p.service;
    pending = [];
    answers = w.answers;
    log = w.log;
  }

  -- What a process leaves: a guard and a sink that were closed, or not.
  abbrev pub left_by : Bool → D.Db → JsonlSink F N → Running → World
  left_by true db sink t = record {
    files = (close_file F N sink).1.files;
    disk = (R.close_db replay db).1;
    answers = t.answers;
    log = t.log;
  }
  left_by false db sink t = record {
    files = sink.files;
    disk = R.lose replay db;
    answers = t.answers;
    log = t.log;
  }

  pub data Continues (w : World) : World → Type 1 where
    rest : Continues w w
    -- A start that fails.
    stop :
        {u : World} (O : Outside) (clock now : Readings) (path : Str) (failed : Error)
        (files : F.State) (disk : R.Disk)
        → Continues w u
        → Replays O path
        → start O D T R F N P matches marshal clock now path u.files u.disk
          ≡ stopped failed files disk
        → Continues w (record u { files = files; disk = disk })
    -- A life that serves.
    serve :
        {u : World} (O : Outside) (clock now : Readings) (path : Str)
        (p : Proxy O D T R F N P matches marshal clock now) (t : Running)
        (v : Verifier (sqlite_guard D T)) (db : D.Db) (later : Readings) (sink : JsonlSink F N)
        (is_closed : Bool)
        → Continues w u
        → Replays O path
        → start O D T R F N P matches marshal clock now path u.files u.disk ≡ serving p
        → Runs (begin O clock now p u) t
        → t.service.verifier ≡ some v
        → v.replay_guard ≡ some (some db)
        → t.service.storage ≡ some (later, sink)
        → Continues w (left_by is_closed db sink t)

  module _ (U : IsDurable T R) where
    -- Between two lives: the disk holds the frames that have passed, no replay among them, and every
    -- frame that was accepted is one of them.
    record IsKept (old : Log) (w : World) : Type 0 where
      held : Holds (U.on_disk replay w.disk) w.log
      no_replay : NoReplay w.log
      counted : (d f : Str) → times_accepted d f w.answers + times d f old ≤ times d f w.log

    abbrev Safe : Log → Running → Type 0
    Safe =
        IsSafe (sqlite_guard D T) (sqlite_guard-IsGuard D T) (timed_pipeline matches P)
          (timed_sink F N marshal) P unmarshal or_zero

    begin-Safe :
        (O : Outside) (clock now : Readings) (path : Str) (old : Log) (u : World)
        (p : Proxy O D T R F N P matches marshal clock now)
        → IsKept old u
        → Replays O path
        → IsServing O D T R U F N P matches marshal clock now path u.disk p
        → Safe old (begin O clock now p u)
    unfolding sqlite_guard-IsGuard times_pending
    begin-Safe O clock now path old u p h same s = record {
      stands =
          subst
            (λ x.
              Stood (sqlite_guard D T) (sqlite_guard-IsGuard D T) (timed_pipeline matches P)
                (timed_sink F N marshal) P unmarshal or_zero x u.log)
            (sym s.verifier)
            (subst (λ x. Holds x u.log)
              (sym (s.rows ∙ ap (λ x. U.on_disk x u.disk) (same s.config s.loaded))) h.held);
      no_replay = h.no_replay;
      counted = λ d f. omega (arith, h.counted d f);
    }

    Safe-Holds :
        (old : Log) (t : Running) (v : Verifier (sqlite_guard D T)) (db : D.Db)
        → Safe old t
        → t.service.verifier ≡ some v
        → v.replay_guard ≡ some (some db)
        → Holds (T.rows db) t.log
    unfolding sqlite_guard-IsGuard
    Safe-Holds old t v db safe hv hg =
        subst (λ x. Stands P (sqlite_guard D T) (sqlite_guard-IsGuard D T) x t.log) hg
          (subst
            (λ x.
              Stood (sqlite_guard D T) (sqlite_guard-IsGuard D T) (timed_pipeline matches P)
                (timed_sink F N marshal) P unmarshal or_zero x t.log)
            hv safe.stands)

    left_by-IsKept :
        (is_closed : Bool) (old : Log) (t : Running) (db : D.Db) (sink : JsonlSink F N)
        → Safe old t
        → Holds (T.rows db) t.log
        → IsKept old (left_by is_closed db sink t)
    left_by-IsKept true old t db sink safe held = record {
      held = subst (λ x. Holds x t.log) (sym (U.close_rows replay db)) held;
      no_replay = safe.no_replay;
      counted = λ d f. omega (arith, safe.counted d f);
    }
    left_by-IsKept false old t db sink safe held = record {
      held = subst (λ x. Holds x t.log) (sym (U.lose_rows replay db)) held;
      no_replay = safe.no_replay;
      counted = λ d f. omega (arith, safe.counted d f);
    }

    -- A start that stops keeps the rows of the file.
    left :
        (O : Outside) (path : Str) (disk disk' : R.Disk)
        → Replays O path
        → {clock now : Readings}
        → IsUnchanged O D T R U F N P matches marshal clock now path disk disk'
        → U.on_disk replay disk' ≡ U.on_disk replay disk
    left O path disk disk' same h =
        elim (Result-cases
          (load O.decode_base64 O.replay_path_beside O.read_file O.decode_config path)) [
            | inl (c, e) ↦ subst (λ x. U.on_disk x disk' ≡ U.on_disk x disk) (same c e) (h.rows c e)
            | inr (failure, e) ↦ ap (U.on_disk replay) (h.whole failure e)
          ]

    Continues-IsKept : (old : Log) {w u : World} → IsKept old w → Continues w u → IsKept old u
    Continues-IsKept old h rest = h
    Continues-IsKept old h (stop {u} O clock now path failed files disk c same e) =
        let before = Continues-IsKept old h c in
        let sound =
          subst (Sound O D T R U F N P matches marshal clock now path u.files u.disk) e
            (start-Sound O D T R U F N P matches marshal clock now path u.files u.disk) in
        record {
          held =
              subst (λ x. Holds x u.log) (sym (left O path u.disk disk same sound.1)) before.held;
          no_replay = before.no_replay;
          counted = before.counted;
        }
    Continues-IsKept old h
          (serve {u} O clock now path p t v db later sink is_closed c same e r hv hg hk) =
        let before = Continues-IsKept old h c in
        let sound =
          subst (Sound O D T R U F N P matches marshal clock now path u.files u.disk) e
            (start-Sound O D T R U F N P matches marshal clock now path u.files u.disk) in
        let safe =
          Reaches-IsSafe (sqlite_guard D T) (sqlite_guard-IsGuard D T) (timed_pipeline matches P)
            (timed_sink F N marshal) P unmarshal or_zero old
            (begin-Safe O clock now path old u p before same sound) r in
        left_by-IsKept is_closed old t db sink safe (Safe-Holds old t v db safe hv hg)

    -- Over any lives of the proxy whose configurations all name the same file for the replay
    -- guard, with calls that run at the same time, starts that fail, statements of the database
    -- that fail, and lives that are cut off: no two calls with the same device and frame id are
    -- answered accept, in one life or in two, and none whose frame had passed verification before,
    -- if the database in that file held the log of such frames, without replays, at the beginning.
    pub accepted_once_ever :
        (w u : World) (d f : Str)
        → Holds (U.on_disk replay w.disk) w.log
        → NoReplay w.log
        → w.answers ≡ []
        → Continues w u
        → times_accepted d f u.answers + times d f w.log ≤ 1
    unfolding times_accepted
    accepted_once_ever w u d f held clean nothing c =
        let begins : IsKept w.log w = record {
          held = held;
          no_replay = clean;
          counted = λ d f. ground (arith, nothing);
        } in
        let kept = Continues-IsKept w.log begins c in
        omega (arith, kept.counted d f, times-NoReplay u.log d f kept.no_replay)
