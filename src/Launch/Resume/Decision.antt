-- ===== src/Launch/Resume/Decision.antt =====
-- When `ResolveResumeState` of backend/qemu/internal/launch/resume.go resumes, boots fresh or fails.
use virtle.Prelude.{
  sym, ap, ◌∙◌, String, false, none, some, ◌≡◌, ◌≢◌, ◌⊎◌, ◌↔◌, inl, inr, refl, arith, eq_iff,
}
use virtle.Prelude.Int.{pos, ◌<ℤ◌}
use virtle.Prelude.Errors.{Error, Result, ok, err, is_not_exist}
use virtle.Launch.Resume.{
  SuspendState, suspend_status_saved, Saved, with_path, check_stream, check_state, check_read,
  resolve_resume_state,
}

-- A state that this program can resume.
pub record IsResumable (m : Saved) (version : String) (s : SuspendState) : Type 0 where
  pub is_read : m.read ≡ ok s
  pub is_saved : s.status ≡ suspend_status_saved
  pub same_version : s.version ≡ version
  pub has_cid : pos 0 <ℤ s.cid
  pub has_stream : m.stat (with_path m s).vm_state_path ≡ none

module _ (m : Saved) (mode version : String) where
  check_state_sound :
      (s t : SuspendState)
      → check_state m mode version s ≡ ok (some t)
      → (s.status ≡ suspend_status_saved)
        × (s.version ≡ version)
        × (pos 0 <ℤ s.cid)
        × (m.stat (with_path m s).vm_state_path ≡ none)
        × (t ≡ with_path m s)
  unfolding check_state check_stream
  check_state_sound s t h =
      ground (arith, eq_iff s.status suspend_status_saved, eq_iff s.version version)

  check_state_complete :
      (s : SuspendState)
      → s.status ≡ suspend_status_saved
      → s.version ≡ version
      → pos 0 <ℤ s.cid
      → m.stat (with_path m s).vm_state_path ≡ none
      → check_state m mode version s ≡ ok (some (with_path m s))
  unfolding check_state check_stream
  check_state_complete s a b c d =
      ground (arith, eq_iff s.status suspend_status_saved, eq_iff s.version version)

  check_read_sound :
      (r : Result SuspendState) (t : SuspendState)
      → check_read m mode version r ≡ ok (some t)
      → (s : SuspendState) × (r ≡ ok s) × (check_state m mode version s ≡ ok (some t))
  unfolding check_read
  check_read_sound (err e) t h = absurd (ground arith)
  check_read_sound (ok s) t h = (s, refl, h)

  resolve_reads :
      mode ≢ "no" → resolve_resume_state m mode version ≡ check_read m mode version m.read
  unfolding resolve_resume_state
  resolve_reads n = ground (arith, eq_iff mode "no")

  resolve_not_no :
      (t : SuspendState) → resolve_resume_state m mode version ≡ ok (some t) → mode ≢ "no"
  unfolding resolve_resume_state
  resolve_not_no t h = ground (arith, eq_iff mode "no")

  -- A launch resumes a state exactly if the mode is not no and the state is the one that is read,
  -- with the path of its stream filled in: saved, of this version, with a positive CID and with
  -- its stream at hand.
  pub resolve_resumes_iff :
      (t : SuspendState)
      → (resolve_resume_state m mode version ≡ ok (some t))
        ↔ ((mode ≢ "no") × ((s : SuspendState) × IsResumable m version s × (t ≡ with_path m s)))
  resolve_resumes_iff t = (sound, complete)
    where
      sound :
          resolve_resume_state m mode version ≡ ok (some t)
          → (mode ≢ "no") × ((s : SuspendState) × IsResumable m version s × (t ≡ with_path m s))
      sound h =
          let n = resolve_not_no t h in
          let (s, r, c) = check_read_sound m.read t (sym (resolve_reads n) ∙ h) in
          let (a, b, d, e, f) = check_state_sound s t c in
          (
            n,
            (
              s,
              record { is_read = r; is_saved = a; same_version = b; has_cid = d; has_stream = e },
              f,
            ),
          )

      complete :
          (mode ≢ "no") × ((s : SuspendState) × IsResumable m version s × (t ≡ with_path m s))
          → resolve_resume_state m mode version ≡ ok (some t)
      complete (n, (s, v, f)) =
          resolve_reads n
          ∙ ap (check_read m mode version) v.is_read
          ∙ read_ok s
          ∙ check_state_complete s v.is_saved v.same_version v.has_cid v.has_stream
          ∙ ap (λ x. ok (some x)) (sym f)
        where
          read_ok :
              (s : SuspendState) → check_read m mode version (ok s) ≡ check_state m mode version s
          read_ok s = unfold check_read in refl

module _ (m : Saved) (version : String) where
  force_check : (r : Result SuspendState) → check_read m "force" version r ≢ ok none
  unfolding check_read check_state check_stream
  force_check (err e) = ground arith
  force_check (ok s) = ground arith

  -- In mode force a launch never boots fresh.
  pub force_never_fresh : resolve_resume_state m "force" version ≢ ok none
  unfolding resolve_resume_state
  force_never_fresh = force_check m.read

  auto_check :
      (r : Result SuspendState) (e : Error)
      → check_read m "auto" version r ≡ err e
      → ((r ≡ err e) × (is_not_exist e ≡ false))
        ⊎ ((s : SuspendState) × (r ≡ ok s)
            × (s.status ≡ suspend_status_saved)
            × (s.version ≢ version))
  unfolding check_read check_state check_stream
  auto_check (err e) x h = inl (ground arith)
  auto_check (ok s) x h = inr (
    s,
    refl,
    ground (arith, eq_iff s.status suspend_status_saved),
    ground (arith, eq_iff s.version version),
  )

  -- In mode auto a launch fails only if the state cannot be read for another reason than that it
  -- is missing, or is a saved one of another version.
  auto_fails_only :
      (e : Error)
      → resolve_resume_state m "auto" version ≡ err e
      → ((m.read ≡ err e) × (is_not_exist e ≡ false))
        ⊎ ((s : SuspendState) × (m.read ≡ ok s)
            × (s.status ≡ suspend_status_saved)
            × (s.version ≢ version))
  unfolding resolve_resume_state
  auto_fails_only e h = auto_check m.read e h
