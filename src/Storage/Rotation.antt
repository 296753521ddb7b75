-- ===== src/Storage/Rotation.antt =====
-- Rotation never writes over an archive, and leaves a file open.
use golem_harness.Base.{ℕ, zero, suc, ◌+◌, ◌<◌, Str, ◌≡◌, refl, ◌⊎◌, inl, inr, arith}
use golem_harness.Clock.{Time}
use golem_harness.Storage.{JsonlSink, rename_free, rename_to, rotate_path}
use golem_harness.Storage.Paths.{
  Files, Stat, missing, unreadable, found, Names, candidate, rotated_path,
}

module _ (F : Files) (N : Names) where
  -- A file was given a name that no file had, the one of candidate number i.
  pub record IsArchived (s : JsonlSink F N) (dest : Str) (after : F.State) : Type 0 where
    pub number : ℕ
    pub below : number < 100
    pub free : F.stat (candidate dest number) s.files ≡ missing
    pub moved : after ≡ (F.rename s.path (candidate dest number) s.files).1

  pub Stat-cases :
      (x : Stat) → (x ≡ missing) ⊎ ((x ≡ unreadable) ⊎ ((n : ℕ) × (t : Time) × (x ≡ found n t)))
  Stat-cases missing = inl refl
  Stat-cases unreadable = inr (inl refl)
  Stat-cases (found n t) = inr (inr (n, t, refl))

  rename_free-IsArchived :
      (left i : ℕ) (dest : Str) (s : JsonlSink F N)
      → left + i ≡ 100
      → let t = (rename_free F N left i dest s).1 in (t.files ≡ s.files) ⊎ IsArchived s dest t.files
  unfolding rename_free rename_to
  rename_free-IsArchived zero i dest s room = inl refl
  rename_free-IsArchived (suc left) i dest s room =
      elim (Stat-cases (F.stat (candidate dest i) s.files)) [
        | inl e ↦
            rw (e, rename_free)
              (inr (record { number = i; below = omega arith; free = e; moved = refl }))
        | inr (inl e) ↦ rw (e, rename_free) (inl refl)
        | inr (inr (n, t, e)) ↦
            rw (e, rename_free) (rename_free-IsArchived left (i + 1) dest s (omega arith))
      ]

  -- Rotating the path leaves all files as they were, or has renamed the active file to one of 100
  -- archive names that no file had.
  pub rotate_path-IsArchived :
      (stamp : Str) (s : JsonlSink F N)
      → let t = (rotate_path F N stamp s).1 in
        (t.files ≡ s.files) ⊎ IsArchived s (rotated_path N s.path stamp) t.files
  unfolding rotate_path
  rotate_path-IsArchived stamp s = elim (Stat-cases (F.stat s.path s.files)) [
    | inl e ↦ rw (e, rotate_path) (inl refl)
    | inr (inl e) ↦ rw (e, rotate_path) (inl refl)
    | inr (inr (n, t, e)) ↦
        rw (e, rotate_path) (rename_free-IsArchived 100 0 (rotated_path N s.path stamp) s refl)
  ]
