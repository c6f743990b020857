-- ===== src/Launch/Save/Roundtrip.antt =====
-- A state that a suspend saves, and the launch that resumes it.
use virtle.Prelude.{
  ◌∙◌, sym, subst, ℕ, String, ◌≡◌, ◌≢◌, refl, ◌⊎◌, inl, Option, none, some, eq_iff, arith,
}
use virtle.Prelude.Int.{ℤ, pos, ◌<ℤ◌}
use virtle.Prelude.Errors.{Error, ok}
use virtle.Launch.Resume.{SuspendState, resolve_resume_state, with_path}
use virtle.Launch.Resume.Decision.{IsResumable, resolve_resumes_iff}
use virtle.Launch.Save.{
  state_version, filled, Disk, Manifest, SaveCalls, prepare_vm_state_file, write_suspend_state_data,
  completed_state, staged, after_migration, after_prepare, save_suspend_state, state_of, saved_on,
  found_state, found_stream,
}
use virtle.Runtime.Migration.{SaveClient, save_to_file}

module _ (m : Manifest) (calls : SaveCalls) where
  -- The files after a save that reports no error.
  abbrev IsComplete : SuspendState → Disk → Type 0
  IsComplete s d = (d.stream ≡ some filled) × (d.state ≡ some (completed_state m calls.now s))

  staged-IsComplete :
      (s : SuspendState) (g : Option Error × Disk) (d : Disk)
      → (g.0 ≡ none → IsComplete s g.1)
      → staged g ≡ (none, d)
      → IsComplete s d
  unfolding staged
  staged-IsComplete s (none, d') d c h = ground (arith, c refl)
  staged-IsComplete s (some e, d') d c h = absurd (ground arith)

  write-IsComplete :
      (s : SuspendState) (d : Disk)
      → d.stream ≡ some filled
      → (write_suspend_state_data m calls s d).0 ≡ none
      → IsComplete s (write_suspend_state_data m calls s d).1
  unfolding write_suspend_state_data
  write-IsComplete s d f h = ground arith

  migration-IsComplete :
      (s : SuspendState) (g : Option (Option Error)) (d d' : Disk)
      → after_migration m calls s g d ≡ some (none, d')
      → IsComplete s d'
  unfolding after_migration
  migration-IsComplete s none d d' h = absurd (ground arith)
  migration-IsComplete s (some (some e)) d d' h = absurd (ground arith)
  migration-IsComplete s (some none) d d' h =
      staged-IsComplete s (write_suspend_state_data m calls s (record d { stream = some filled }))
        d' (λ e. write-IsComplete s (record d { stream = some filled }) refl e) (ground arith)

  prepare-IsComplete :
      (s : SuspendState) (g : Option (Option Error)) (p : Option Error × Disk) (d : Disk)
      → after_prepare m calls s g p ≡ some (none, d)
      → IsComplete s d
  unfolding after_prepare
  prepare-IsComplete s g (some e, x) d h = absurd (ground arith)
  prepare-IsComplete s g (none, x) d h = migration-IsComplete s g x d h

completed_lem :
    (m : Manifest) (now : ℤ) (s : SuspendState)
    → ((completed_state m now s).version ≡ s.version)
      × ((completed_state m now s).status ≡ s.status)
      × ((completed_state m now s).cid ≡ s.cid)
      × ((completed_state m now s).vm_state_path ≡ s.vm_state_path)
unfolding completed_state
completed_lem m now s = ground arith

with_path_same :
    (m : Manifest) (d : Disk) (s : SuspendState)
    → s.vm_state_path ≡ m.vm_state_path
    → ((with_path (saved_on m d) s).vm_state_path ≡ m.vm_state_path)
      × ((with_path (saved_on m d) s).cid ≡ s.cid)
unfolding with_path saved_on
with_path_same m d s e = ground arith

saved_on-read :
    (m : Manifest) (d : Disk) {s : SuspendState} → d.state ≡ some s → (saved_on m d).read ≡ ok s
unfolding saved_on found_state
saved_on-read m d e = rw e refl

saved_on-stat :
    (m : Manifest) (d : Disk) (path : String)
    → path ≡ m.vm_state_path
    → d.stream ≡ some filled
    → (saved_on m d).stat path ≡ none
unfolding saved_on found_stream
saved_on-stat m d path e f = ground (arith, eq_iff path m.vm_state_path)

-- Where the CID is positive and the mode is not no, a launch that finds the files as a suspend left them that
-- reported no error resumes a state with the CID and the stream of that suspend.
pub resume-save :
    (m : Manifest) (socket mode : String) (cid : ℤ) (calls : SaveCalls) (client : SaveClient)
    (rounds : ℕ) (d d' : Disk)
    → pos 0 <ℤ cid
    → mode ≢ "no"
    → save_suspend_state m socket cid calls client rounds d ≡ some (none, d')
    → (s : SuspendState) × (resolve_resume_state (saved_on m d') mode state_version ≡ ok (some s))
      × (s.cid ≡ cid)
      × (s.vm_state_path ≡ m.vm_state_path)
      × (d'.stream ≡ some filled)
unfolding save_suspend_state
resume-save m socket mode cid calls client rounds d d' positive n h =
    let c =
      prepare-IsComplete m calls (state_of m socket cid) (save_to_file client rounds)
        (prepare_vm_state_file m calls d) d' h in
    let s = completed_state m calls.now (state_of m socket cid) in
    let l = completed_lem m calls.now (state_of m socket cid) in
    let w = with_path_same m d' s l.3 in
    let resumable : IsResumable (saved_on m d') state_version s = record {
      is_read = saved_on-read m d' c.1;
      is_saved = l.1;
      same_version = l.0;
      has_cid = subst (λ x. pos 0 <ℤ x) (sym l.2) positive;
      has_stream = saved_on-stat m d' (with_path (saved_on m d') s).vm_state_path w.0 c.0;
    } in
    (
      with_path (saved_on m d') s,
      (resolve_resumes_iff (saved_on m d') mode state_version (with_path (saved_on m d') s)).1
          (n, (s, resumable, refl)),
      w.1 ∙ l.2,
      w.0,
      c.0,
    )

-- A state that is on file has its stream filled.
abbrev pub IsBacked : Disk → Type 0
IsBacked d = (d.state ≡ none) ⊎ (d.stream ≡ some filled)

prepare_same_state :
    (m : Manifest) (calls : SaveCalls) (d : Disk)
    → (prepare_vm_state_file m calls d).1.state ≡ d.state
unfolding prepare_vm_state_file
prepare_same_state m calls d = ground arith

module _ (m : Manifest) (calls : SaveCalls) (s : SuspendState) (torn : calls.torn ≡ none) where
  write-IsBacked :
      (d : Disk)
      → d.stream ≡ some filled
      → IsBacked (staged (write_suspend_state_data m calls s d)).1
  unfolding write_suspend_state_data staged
  write-IsBacked d f = ground arith

  migration-IsBacked :
      (g : Option (Option Error)) (d d' : Disk) {e : Option Error}
      → d.state ≡ none
      → after_migration m calls s g d ≡ some (e, d')
      → IsBacked d'
  unfolding after_migration
  migration-IsBacked none d d' n h = absurd (ground arith)
  migration-IsBacked (some (some x)) d d' n h = inl (ground arith)
  migration-IsBacked (some none) d d' n h =
      ground (arith, write-IsBacked (record d { stream = some filled }) refl)

  prepared-IsBacked :
      (g : Option (Option Error)) (p : Option Error × Disk) (d' : Disk) {e : Option Error}
      → p.1.state ≡ none
      → after_prepare m calls s g p ≡ some (e, d')
      → IsBacked d'
  unfolding after_prepare
  prepared-IsBacked g (some x, d) d' n h = inl (ground arith)
  prepared-IsBacked g (none, d) d' n h = migration-IsBacked g d d' n h

-- Where no state was on file and a write that fails leaves none, a suspend that ends, with an error or
-- without, leaves a state on file only if its stream is filled.
pub save-IsBacked :
    (m : Manifest) (socket : String) (cid : ℤ) (calls : SaveCalls) (client : SaveClient)
    (rounds : ℕ) (d d' : Disk) {e : Option Error}
    → calls.torn ≡ none
    → d.state ≡ none
    → save_suspend_state m socket cid calls client rounds d ≡ some (e, d')
    → IsBacked d'
unfolding save_suspend_state
save-IsBacked m socket cid calls client rounds d d' torn n h =
    prepared-IsBacked m calls (state_of m socket cid) torn (save_to_file client rounds)
      (prepare_vm_state_file m calls d) d' (prepare_same_state m calls d ∙ n) h
