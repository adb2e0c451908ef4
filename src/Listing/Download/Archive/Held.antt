-- ===== src/Listing/Download/Archive/Held.antt =====
-- The items of the archive at the end of its loop.
use mathlib.Core.List.{Memᴰ}
use mathlib.Core.List.Memᴰ.{head, tail, append_left, append_right}
use weave_gate.Common.{
  ℕ, zero, suc, ◌<◌, ◌≡◌, inl, inr, refl, sym, ap, ◌∙◌, subst, arith, String, Bool, true, false,
  Option, none, some, List, [], ◌∷◌, ◌++◌, All, All-append, Option-cases,
}
use weave_gate.Common.Pairs.{some_inj}
use weave_gate.Paths.{push}
use weave_gate.Markdown.{strip_path}
use weave_gate.Listing.Download.Archive.{
  Job, Appended, Folder, push_all, item_of, pushed, visit, archive_loop, first_job, archive,
}
use weave_gate.Listing.Download.Archive.Walked.{
  Reach, start, below, Reach-split, pushed_sound, pushed_complete, mem_push_all-old,
  mem_push_all-new, push_all-All, total, total-push_all,
}

-- what holds of all members
members-All {ℓ κ} :
    {A : Type ℓ} (P : A → Type κ) (xs : List A) → ((x : A) → Memᴰ x xs → P x) → All P xs
members-All P [] h = tt
members-All P (x ∷ xs) h = (h x (head refl), members-All P xs (λ y m. h y (tail m)))

module _ (f : Folder) (follow_symlinks ignore_hidden : Bool) (path src_path : String) where
  -- What is appended for a job: its name in the archive is its path behind that of the directory.
  pub record Holds (job : Job) (more : List Appended) : Type 0 where
    pub rest : String
    pub stripped : strip_path job.src src_path ≡ some rest
    pub appended : item_of f follow_symlinks ignore_hidden job (push path rest) ≡ some more

  abbrev loop : ℕ → List Job → List Appended → Option (List Appended × Bool)
  loop = archive_loop f follow_symlinks ignore_hidden path src_path

  abbrev round : Job → Option (List Job × List Appended)
  round = visit f follow_symlinks ignore_hidden path src_path

  visit-Holds :
      (job : Job) (jobs : List Job) (more : List Appended)
      → round job ≡ some (jobs, more)
      → (pushed f follow_symlinks ignore_hidden job ≡ some jobs) × Holds job more
  unfolding visit
  visit-Holds job jobs more h = elim (Option-cases (strip_path job.src src_path)) [
    | inl n ↦ cc (rw (n, visit) at h)
    | inr (rest, s) ↦ elim (Option-cases (pushed f follow_symlinks ignore_hidden job)) [
      | inl n ↦ cc (rw (s, n, visit) at h)
      | inr (js, p) ↦
          elim (Option-cases (item_of f follow_symlinks ignore_hidden job (push path rest))) [
            | inl n ↦ cc (rw (s, p, n, visit) at h)
            | inr (items, i) ↦
                let same = some_inj (rw (s, p, i, visit) at h) in
                (
                  p ∙ ap some (ap (λ x. x.0) same),
                  record { rest = rest; stripped = s; appended = i ∙ ap some (ap (λ x. x.1) same) },
                )
          ]
    ]
  ]

  -- one round of the loop that goes on
  loop-round :
      (fuel : ℕ) (job : Job) (stack jobs : List Job) (items more : List Appended)
      → round job ≡ some (jobs, more)
      → loop (suc fuel) (job ∷ stack) items ≡ loop fuel (push_all jobs stack) (items ++ more)
  unfolding archive_loop
  loop-round fuel job stack jobs items more e = rw (e, archive_loop) refl

  loop_failed :
      (fuel : ℕ) (job : Job) (stack : List Job) (items : List Appended)
      → round job ≡ none
      → loop (suc fuel) (job ∷ stack) items ≡ some (items, false)
  unfolding archive_loop
  loop_failed fuel job stack items e = rw (e, archive_loop) refl

  -- what is in the archive stays in it
  loop_kept :
      (fuel : ℕ) (stack : List Job) (items all : List Appended) (done : Bool) (item : Appended)
      → loop fuel stack items ≡ some (all, done)
      → Memᴰ item items
      → Memᴰ item all
  unfolding archive_loop
  loop_kept fuel [] items all done item h m = subst (Memᴰ item) (ap (λ x. x.0) (some_inj h)) m
  loop_kept zero (job ∷ stack) items all done item h m = cc
  loop_kept (suc fuel) (job ∷ stack) items all done item h m = elim (Option-cases (round job)) [
    | inl n ↦
        subst (Memᴰ item) (ap (λ x. x.0) (some_inj (sym (loop_failed fuel job stack items n) ∙ h)))
          m
    | inr ((jobs, more), e) ↦
        loop_kept fuel (push_all jobs stack) (items ++ more) all done item
          (sym (loop-round fuel job stack jobs items more e) ∙ h) (append_left more m)
  ]

  -- everything that is reached from the stack is in the archive of a loop that comes to its end
  abbrev pub IsArchived : List Appended → Job → Type 0
  IsArchived all job = (more : List Appended) × Holds job more × All (λ item. Memᴰ item all) more

  loop_complete :
      (fuel : ℕ) (stack : List Job) (items all : List Appended) (top job : Job)
      → loop fuel stack items ≡ some (all, true)
      → Memᴰ top stack
      → Reach f follow_symlinks ignore_hidden top job
      → IsArchived all job
  unfolding archive_loop
  loop_complete fuel [] items all top job h m r = elim m [ ]
  loop_complete zero (first ∷ stack) items all top job h m r = cc
  loop_complete (suc fuel) (first ∷ stack) items all top job h m r =
      elim (Option-cases (round first)) [
        | inl n ↦ cc (sym (loop_failed fuel first stack items n) ∙ h)
        | inr ((jobs, more), e) ↦
            let (is_pushed, holds) = visit-Holds first jobs more e in
            let h' = sym (loop-round fuel first stack jobs items more e) ∙ h in
            elim m [
              | tail m' ↦
                  loop_complete fuel (push_all jobs stack) (items ++ more) all top job h'
                    (mem_push_all-old jobs stack m') r
              | head at ↦
                  let r' = subst (λ t. Reach f follow_symlinks ignore_hidden t job) at r in
                  elim (Reach-split f follow_symlinks ignore_hidden first job r') [
                    | inl same ↦ (
                      more,
                      subst (λ j. Holds j more) (sym same) holds,
                      members-All (λ item. Memᴰ item all) more
                          (λ item m'.
                            loop_kept fuel (push_all jobs stack) (items ++ more) all true item h'
                              (append_right items m')),
                    )
                    | inr (c, b, rest) ↦
                        loop_complete fuel (push_all jobs stack) (items ++ more) all c job h'
                          (mem_push_all-new jobs stack (
                            pushed_complete f follow_symlinks ignore_hidden first c jobs is_pushed
                              b))
                          rest
                  ]
            ]
      ]

  -- The item of a job that is reached from the directory.
  abbrev pub IsOfReached : Appended → Type 0
  IsOfReached item =
      (job : Job) × Reach f follow_symlinks ignore_hidden
        (first_job f follow_symlinks ignore_hidden path src_path) job
      × ((more : List Appended) × Holds job more × Memᴰ item more)

  loop_sound :
      (fuel : ℕ) (stack : List Job) (items all : List Appended) (done : Bool)
      → loop fuel stack items ≡ some (all, done)
      → All
          (Reach f follow_symlinks ignore_hidden
            (first_job f follow_symlinks ignore_hidden path src_path))
          stack
      → All IsOfReached items
      → All IsOfReached all
  unfolding archive_loop
  loop_sound fuel [] items all done h s k = subst (All IsOfReached) (ap (λ x. x.0) (some_inj h)) k
  loop_sound zero (job ∷ stack) items all done h s k = cc
  loop_sound (suc fuel) (job ∷ stack) items all done h (r, s) k = elim (Option-cases (round job)) [
    | inl n ↦
        subst (All IsOfReached)
          (ap (λ x. x.0) (some_inj (sym (loop_failed fuel job stack items n) ∙ h))) k
    | inr ((jobs, more), e) ↦
        let (is_pushed, holds) = visit-Holds job jobs more e in
        loop_sound fuel (push_all jobs stack) (items ++ more) all done
          (sym (loop-round fuel job stack jobs items more e) ∙ h)
          (push_all-All _ jobs stack
            (members-All _ jobs (λ c m.
              below job c r (pushed_sound f follow_symlinks ignore_hidden job c jobs is_pushed m)))
            s)
          (All-append IsOfReached items more k
            (members-All IsOfReached more (λ item m. (job, r, (more, holds, m)))))
  ]

  -- Each job weighs more than the jobs below it together.
  abbrev pub IsFinite : (Job → ℕ) → Type 0
  IsFinite weight =
      (job : Job) (jobs : List Job)
      → pushed f follow_symlinks ignore_hidden job ≡ some jobs
      → total weight jobs < weight job

  loop_ends :
      (weight : Job → ℕ)
      → IsFinite weight
      → (fuel : ℕ) (stack : List Job) (items : List Appended) → total weight stack < fuel
      → (all : List Appended) × (done : Bool) × (loop fuel stack items ≡ some (all, done))
  unfolding archive_loop
  loop_ends weight lighter fuel [] items enough = (items, true, refl)
  loop_ends weight lighter zero (job ∷ stack) items enough = absurd (omega (arith, enough))
  loop_ends weight lighter (suc fuel) (job ∷ stack) items enough = elim (Option-cases (round job)) [
    | inl n ↦ (items, false, loop_failed fuel job stack items n)
    | inr ((jobs, more), e) ↦
        let (is_pushed, _) = visit-Holds job jobs more e in
        let (all, done, h) =
          loop_ends weight lighter fuel (push_all jobs stack) (items ++ more)
            (omega (arith, total-push_all weight jobs stack, lighter job jobs is_pushed, enough)) in
        (all, done, loop-round fuel job stack jobs items more e ∙ h)
  ]

  -- Where the tree below the directory is finite, so that a job weighs more than all jobs below it, the
  -- archive is made in as many rounds as the directory weighs. All that it holds are the items of
  -- what is reached from the directory, by entries that are not left out as hidden, through directories
  -- and, only if they are followed, links to directories. And an archive that is made without an error
  -- holds the items of all that is reached.
  pub archive-IsArchived :
      (weight : Job → ℕ) (fuel : ℕ)
      → IsFinite weight
      → weight (first_job f follow_symlinks ignore_hidden path src_path) < fuel
      → (all : List Appended) × (done : Bool) × (archive f follow_symlinks ignore_hidden path
            src_path fuel
          ≡ some (all, done))
        × All IsOfReached all
        × (done ≡ true
            → (job : Job)
            → Reach f follow_symlinks ignore_hidden
                (first_job f follow_symlinks ignore_hidden path src_path)
                job
            → IsArchived all job)
  unfolding archive
  archive-IsArchived weight fuel finite enough =
      let first = first_job f follow_symlinks ignore_hidden path src_path in
      let (all, done, h) = loop_ends weight finite fuel (first ∷ []) [] (omega (arith, enough)) in
      (
        all,
        done,
        h,
        loop_sound fuel (first ∷ []) [] all done h (start, tt) tt,
        λ ended job r.
            loop_complete fuel (first ∷ []) [] all first job (h ∙ ap (λ d. some (all, d)) ended)
              (head refl) r,
      )
