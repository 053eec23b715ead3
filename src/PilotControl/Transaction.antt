-- ===== src/PilotControl/Transaction.antt =====
-- `_apply_transaction` of guardian_core/pilot_control.py: several files are written, or none. The files
-- are a function from their paths; each write is one `os.replace`. Which writes the disk carries out is an
-- argument; a file that was written is taken to be restored.
use hackaton_open_ai.Prelude.{
  ◌≡◌, refl, String, Bool, true, false, Option, some, List, [], ◌∷◌, ◌==◌, string_eq, eq_iff, any,
  if◌then◌else◌, Result, ok, err, arith, Bool-cases, inl, inr,
}

pub data FilePath : Type 0 where
  active_path audit_path : FilePath
  snapshot_path : String → FilePath

abbrev pub same_path : FilePath → FilePath → Bool
same_path active_path active_path = true
same_path audit_path audit_path = true
same_path (snapshot_path d) (snapshot_path e) = d == e
same_path active_path audit_path = false
same_path active_path (snapshot_path e) = false
same_path audit_path active_path = false
same_path audit_path (snapshot_path e) = false
same_path (snapshot_path d) active_path = false
same_path (snapshot_path d) audit_path = false

pub same_path_eq : (p q : FilePath) → same_path p q ≡ true → p ≡ q
same_path_eq active_path active_path h = refl
same_path_eq audit_path audit_path h = refl
same_path_eq (snapshot_path d) (snapshot_path e) h = let same : d ≡ e = (eq_iff d e).0 h in cc
same_path_eq active_path audit_path h = cc
same_path_eq active_path (snapshot_path e) h = cc
same_path_eq audit_path active_path h = cc
same_path_eq audit_path (snapshot_path e) h = cc
same_path_eq (snapshot_path d) active_path h = cc
same_path_eq (snapshot_path d) audit_path h = cc

pub data DiskError : Type 0 where
  os_error : DiskError

module _ {Text : Type 0} where
  -- `None` is a path that does not exist.
  abbrev pub put : FilePath → Option Text → (FilePath → Option Text) → FilePath → Option Text
  put path content files p = if same_path p path then content else files p

  -- Whether all was written, the paths that were changed, the last one first, and the files. A write
  -- beyond those that the disk carries out raises.
  unfoldable pub write_each :
      List Bool
      → List (FilePath × Text)
      → List FilePath
      → (FilePath → Option Text)
      → Bool × List FilePath × (FilePath → Option Text)
  write_each disk [] changed files = (true, changed, files)
  write_each [] (u ∷ updates) changed files = (false, changed, files)
  write_each (false ∷ disk) (u ∷ updates) changed files = (false, changed, files)
  write_each (true ∷ disk) ((path, content) ∷ updates) changed files =
      write_each disk updates (path ∷ changed) (put path (some content) files)

  unfoldable pub restore_each :
      (FilePath → Option Text) → List FilePath → (FilePath → Option Text) → FilePath → Option Text
  restore_each originals [] files = files
  restore_each originals (path ∷ changed) files =
      restore_each originals changed (put path (originals path) files)

  unfoldable pub apply_transaction :
      List Bool
      → List (FilePath × Text)
      → (FilePath → Option Text)
      → Result DiskError (Unit {0}) × (FilePath → Option Text)
  unfolding write_each restore_each
  apply_transaction disk updates files =
      let (done, changed, written) = write_each disk updates [] files in
      if done then (ok tt, written) else (err os_error, restore_each files changed written)

  module _ (originals : FilePath → Option Text) where
    abbrev IsKept : List FilePath → (FilePath → Option Text) → Type 0
    IsKept changed files =
        (q : FilePath) → any (λ p. same_path q p) changed ≡ false → files q ≡ originals q

    restored :
        (changed : List FilePath) (files : FilePath → Option Text)
        → IsKept changed files
        → (q : FilePath) → restore_each originals changed files q ≡ originals q
    unfolding restore_each
    restored [] files kept q = kept q refl
    restored (p ∷ changed) files kept q =
        restored changed (put p (originals p) files)
          (λ r missing. elim (Bool-cases (same_path r p)) [
            | inl e ↦ rw (e, same_path_eq r p e) refl
            | inr e ↦ rw e (kept r (ground (arith, e, missing)))
          ])
          q

    write_each-IsKept :
        (disk : List Bool) (updates : List (FilePath × Text)) (changed : List FilePath)
        (files : FilePath → Option Text)
        → IsKept changed files
        → IsKept (write_each disk updates changed files).1 (write_each disk updates changed files).2
    unfolding write_each
    write_each-IsKept disk [] changed files kept = kept
    write_each-IsKept [] (u ∷ updates) changed files kept = kept
    write_each-IsKept (false ∷ disk) (u ∷ updates) changed files kept = kept
    write_each-IsKept (true ∷ disk) ((path, content) ∷ updates) changed files kept =
        write_each-IsKept disk updates (path ∷ changed) (put path (some content) files)
          (λ q missing.
            let apart : same_path q path ≡ false = ground (arith, missing) in
            rw apart (kept q (ground (arith, missing))))

  -- A transaction that raises leaves every file as it was.
  pub apply_transaction_rolled_back :
      (disk : List Bool) (updates : List (FilePath × Text)) (files : FilePath → Option Text)
      → (apply_transaction disk updates files).0 ≡ err os_error
      → (q : FilePath) → (apply_transaction disk updates files).1 q ≡ files q
  unfolding apply_transaction
  apply_transaction_rolled_back disk updates files failed q =
      elim (Bool-cases (write_each disk updates [] files).0) [
        | inl e ↦ absurd (ground (arith, e, failed))
        | inr e ↦ rw e (
            restored files (write_each disk updates [] files).1 (write_each disk updates [] files).2
              (write_each-IsKept files disk updates [] files (λ r h. refl)) q)
      ]

  abbrev pub put_all : List (FilePath × Text) → (FilePath → Option Text) → FilePath → Option Text
  put_all [] files = files
  put_all ((path, content) ∷ updates) files = put_all updates (put path (some content) files)

  all_written :
      (disk : List Bool) (updates : List (FilePath × Text)) (changed : List FilePath)
      (files : FilePath → Option Text)
      → (write_each disk updates changed files).0 ≡ true
      → (write_each disk updates changed files).2 ≡ put_all updates files
  unfolding write_each
  all_written disk [] changed files h = refl
  all_written [] (u ∷ updates) changed files h = cc
  all_written (false ∷ disk) (u ∷ updates) changed files h = cc
  all_written (true ∷ disk) ((path, content) ∷ updates) changed files h =
      all_written disk updates (path ∷ changed) (put path (some content) files) h

  -- One that does not raise has written every file.
  pub apply_transaction_written :
      (disk : List Bool) (updates : List (FilePath × Text)) (files : FilePath → Option Text)
      → (apply_transaction disk updates files).0 ≡ ok tt
      → (apply_transaction disk updates files).1 ≡ put_all updates files
  unfolding apply_transaction
  apply_transaction_written disk updates files done =
      elim (Bool-cases (write_each disk updates [] files).0) [
        | inl e ↦ rw e (all_written disk updates [] files e)
        | inr e ↦ absurd (ground (arith, e, done))
      ]
